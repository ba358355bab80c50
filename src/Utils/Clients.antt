-- ===== src/Utils/Clients.antt =====
-- utils/clients.go: the contract's ABI.
use drb_node.Base.{Bytes, Bool, true, false, Option, none, some, ◌>>=◌, if◌then◌else◌, codes}

-- What the packages do with a file that holds an ABI; `none` and `false` are errors.
pub record AbiPackages : Type 0 where
  -- os.ReadFile
  pub read_file : Bytes → Option Bytes
  -- json.Unmarshal into a struct whose one field takes the text under the key abi
  pub abi_field : Bytes → Option Bytes
  -- abi.JSON
  pub parses : Bytes → Bool

-- LoadContractABI; an ABI is given by its text.
unfoldable pub load_contract_abi : AbiPackages → Bytes → Option Bytes
load_contract_abi packages filename = do
  abi_bytes ← packages.read_file filename
  abi ← packages.abi_field abi_bytes
  if packages.parses abi then some abi else none

abbrev abi_file_path : Bytes
abi_file_path = codes "contract/abi/Commit2RevealDRB.json"

-- Whether LoadContractABI succeeds on the file that the nodes name.
unfoldable pub abi_loads : AbiPackages → Bool
unfolding load_contract_abi
abi_loads packages = elim (load_contract_abi packages abi_file_path) [
  | none ↦ false
  | some _ ↦ true
]
