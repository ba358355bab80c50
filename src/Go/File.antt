-- ===== src/Go/File.antt =====
-- A file that holds one JSON object, as os and encoding/json treat it. A decoder reads the first
-- value of the file alone, so what an older and longer text leaves behind a new one is not seen.
use drb_node.Base.{Bytes, Option, none, some, List, [], ◌∷◌, ◌≡◌, refl}
use drb_node.Base.Maps.{Map}

-- What a decoder finds: no file, a file of no bytes (the error EOF), a text that is no such
-- object, or an object.
pub data Content (V : Type 0) : Type 0 where
  absent : Content V
  blank : Content V
  garbled : Content V
  holds : Map Bytes V → Content V

-- What may happen to one use of the file: nothing, or opening it fails, or reading or writing it
-- fails and leaves some content.
pub data Fault (V : Type 0) : Type 0 where
  no_fault : Fault V
  open_fails : Fault V
  transfer_fails : Content V → Fault V

-- The faults of the next uses, in order; after them there are none.
pub record JsonFile (V : Type 0) : Type 0 where
  pub content : Content V
  pub faults : List (Fault V)

pub data Error : Type 0 where
  not_exist open_failed decode_failed encode_failed : Error

pub data Result (A : Type 0) : Type 0 where
  err : Error → Result A
  ok : A → Result A

module _ {V : Type 0} where
  abbrev pub first_fault : List (Fault V) → Fault V
  first_fault [] = no_fault
  first_fault (f ∷ fs) = f

  abbrev pub other_faults : List (Fault V) → List (Fault V)
  other_faults [] = []
  other_faults (f ∷ fs) = fs

  -- The file after a use that leaves its content.
  abbrev pub used : JsonFile V → JsonFile V
  used f = record f { faults = other_faults f.faults }

  abbrev pub written : Content V → JsonFile V → JsonFile V
  written c f = record { content = c; faults = other_faults f.faults }

  -- json.NewDecoder(file).Decode(&m)
  abbrev pub decode : Content V → Result (Map Bytes V)
  decode absent = err not_exist
  decode blank = err decode_failed
  decode garbled = err decode_failed
  decode (holds m) = ok m

  -- os.Open and Decode
  abbrev pub read_result : Fault V → Content V → Result (Map Bytes V)
  read_result no_fault c = decode c
  read_result open_fails c = err open_failed
  read_result (transfer_fails _) c = err decode_failed

  unfoldable pub read_file : JsonFile V → Result (Map Bytes V) × JsonFile V
  read_file f = (read_result (first_fault f.faults) f.content, used f)

  -- os.OpenFile(O_CREATE|O_RDWR), Decode with EOF allowed, Seek(0, 0) and Encode of the changed map
  abbrev pub update_content :
      (Map Bytes V → Map Bytes V) → Fault V → Content V → Option Error × Content V
  update_content change open_fails c = (some open_failed, c)
  update_content change no_fault garbled = (some decode_failed, garbled)
  update_content change no_fault absent = (none, holds (change []))
  update_content change no_fault blank = (none, holds (change []))
  update_content change no_fault (holds m) = (none, holds (change m))
  update_content change (transfer_fails left) c = (some encode_failed, left)

  unfoldable pub update_file : (Map Bytes V → Map Bytes V) → JsonFile V → Option Error × JsonFile V
  update_file change f =
      let (e, c) = update_content change (first_fault f.faults) f.content in (e, written c f)

  -- os.Create and Encode
  abbrev pub create_content : Map Bytes V → Fault V → Content V → Option Error × Content V
  create_content m open_fails c = (some open_failed, c)
  create_content m no_fault c = (none, holds m)
  create_content m (transfer_fails left) c = (some encode_failed, left)

  unfoldable pub create_file : Map Bytes V → JsonFile V → Option Error × JsonFile V
  create_file m f =
      let (e, c) = create_content m (first_fault f.faults) f.content in (e, written c f)

  -- The object of a file, where it holds one; else an empty one.
  abbrev pub entries : Content V → Map Bytes V
  entries (holds m) = m
  entries _ = []

  -- A use that is reported as done leaves the changed map of what was there.
  pub update_file-done :
      (change : Map Bytes V → Map Bytes V) (f : JsonFile V)
      → (update_file change f).0 ≡ none
      → (update_file change f).1.content ≡ holds (change (entries f.content))
  unfolding update_file
  update_file-done change f e = update_content-done change (first_fault f.faults) f.content e
    where
      update_content-done :
          (change : Map Bytes V → Map Bytes V) (fault : Fault V) (c : Content V)
          → (update_content change fault c).0 ≡ none
          → (update_content change fault c).1 ≡ holds (change (entries c))
      update_content-done change no_fault absent e = refl
      update_content-done change no_fault blank e = refl
      update_content-done change no_fault garbled e = absurd (cc)
      update_content-done change no_fault (holds m) e = refl
      update_content-done change open_fails c e = absurd (cc)
      update_content-done change (transfer_fails left) c e = absurd (cc)
