-- ===== src/Utils/Signature.antt =====
-- utils/utils.go: VerifySignature and SignData.
use drb_node.Base.{
  ◌≡◌, sym, ap, Bytes, bytes_eq, Bool, true, false, Option, none, some, ◌==◌, ==_refl, length,
}
use drb_node.Crypto.{Ethereum}
use drb_node.Utils.Requests.{RegistrationRequest}

module _ (eth : Ethereum) where
  recovered_is : Bytes → Option Bytes → Bool
  recovered_is eoa none = false
  recovered_is eoa (some pub_key) = eth.address_hex (eth.pubkey_to_address pub_key) == eoa

  unfoldable pub verify_signature : RegistrationRequest → Bool
  unfolding recovered_is
  verify_signature req =
      recovered_is req.eoa_address (eth.sig_to_pub (eth.digest req.eoa_address) req.signature)

  -- `none` is log.Fatalf
  unfoldable pub sign_data : Bytes → Bytes → Option Bytes
  sign_data message key = eth.sign (eth.digest message) key

  -- crypto.PubkeyToAddress(privateKey.PublicKey).Hex()
  abbrev pub key_eoa : Bytes → Bytes
  key_eoa key = eth.address_hex (eth.pubkey_to_address (eth.public_key key))

  -- The signature of a key over its own address in hexadecimal is accepted for that address,
  -- whatever peer identity comes with it.
  pub verify_signature-sign_data :
      (key signature peer : Bytes)
      → sign_data (key_eoa key) key ≡ some signature
      → verify_signature
          (record { eoa_address = key_eoa key; signature = signature; peer_id = peer })
        ≡ true
  unfolding verify_signature sign_data
  verify_signature-sign_data key signature peer signed =
      rw (eth.sig_to_pub-sign (eth.digest (key_eoa key)) key signature signed, recovered_is)
        (==_refl (key_eoa key))

  recovered_is-address :
      (eoa : Bytes) (o : Option Bytes)
      → recovered_is eoa o ≡ true
      → (a : Bytes) × (length a ≡ 20) × (eoa ≡ eth.address_hex a)
  unfolding recovered_is
  recovered_is-address eoa none h = absurd (cc)
  recovered_is-address eoa (some k) h = (
    eth.pubkey_to_address k,
    eth.length-pubkey_to_address k,
    sym ((bytes_eq.equals_iff _ eoa).0 h),
  )

  -- An accepted request names its sender by the canonical text of an address of 20 bytes, so that
  -- reading the address and printing it again gives the same text.
  pub verify_signature-canonical :
      (req : RegistrationRequest)
      → verify_signature req ≡ true
      → eth.address_hex (eth.hex_to_address req.eoa_address) ≡ req.eoa_address
  unfolding verify_signature
  verify_signature-canonical req h =
      let (a, len, e) =
        recovered_is-address req.eoa_address
          (eth.sig_to_pub (eth.digest req.eoa_address) req.signature) h in
      rw e (ap eth.address_hex (eth.hex_to_address-address_hex a len))
