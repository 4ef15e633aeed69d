-- ===== src/Turn/Integrity.antt =====
-- The signature of the TURN requests of agent/src/webrtc.rs.
use any_kvm.Common.{
  ℕ, ◌+◌, ◌%◌, ◌^◌, ◌<◌, ◌≡◌, refl, sym, ap, ◌∙◌, [], ◌∷◌, ◌++◌, append-nil, append_assoc, arith,
  length, length-append,
}
use any_kvm.Common.Bytes.{Bytes}
use any_kvm.Stun.{stun_header, append_attr}
use any_kvm.Crypto.Sha1.{sha1_hash}
use any_kvm.Crypto.Hmac.{hmac_sha1}
use any_kvm.Turn.{TurnState, set_length, md5_key, append_identity, append_auth, signed_request}

-- `set_length` puts the length into a header.
set_length-stun_header :
    (msg_type l n : ℕ) (txn_id rest : Bytes)
    → set_length (stun_header msg_type l txn_id ++ rest) n ≡ stun_header msg_type n txn_id ++ rest
unfolding set_length stun_header
set_length-stun_header msg_type l n txn_id rest = refl

length-hmac_sha1 : (key msg : Bytes) → length (hmac_sha1 key msg) ≡ 20
unfolding hmac_sha1 sha1_hash
length-hmac_sha1 key msg = refl

-- The attribute MESSAGE-INTEGRITY of a 20-byte digest.
append_attr-digest :
    (buf digest : Bytes)
    → length digest ≡ 20
    → append_attr buf 0x0008 digest ≡ buf ++ (0x00 ∷ 0x08 ∷ 0x00 ∷ 0x14 ∷ digest)
unfolding append_attr
append_attr-digest buf digest h = rw h (rw append-nil)

abbrev pub key_of : TurnState → Bytes
key_of ts = md5_key ts.username ts.realm ts.password

module _ (msg_type : ℕ) (attrs txn_id : Bytes) (ts : TurnState) where
  -- The length of all attributes: those given, the identity, and 24 bytes of MESSAGE-INTEGRITY.
  abbrev pub total : ℕ
  total = length (append_identity attrs ts) + 24

  -- The message as it is sent, up to MESSAGE-INTEGRITY.
  abbrev pub signed_part : Bytes
  signed_part = stun_header msg_type total txn_id ++ append_identity attrs ts

  auth-digest :
      total < 2 ^ 16
      → append_auth attrs (stun_header msg_type 0 txn_id) ts
        ≡ append_identity attrs ts
          ++ (0x00 ∷ 0x08 ∷ 0x00 ∷ 0x14 ∷ hmac_sha1 (key_of ts) signed_part)
  unfolding append_auth
  auth-digest h =
      let buf = append_identity attrs ts in
      let len : (length buf % 2 ^ 16 + 24) % 2 ^ 16 ≡ total = omega arith in
      let hdr : set_length (stun_header msg_type 0 txn_id) total
          ≡ stun_header msg_type total txn_id =
        ap (λ (t : Bytes). set_length t total) (sym (append-nil _))
        ∙ set_length-stun_header msg_type 0 total txn_id []
        ∙ append-nil _ in
      rw (len, hdr)
        (append_attr-digest buf (hmac_sha1 (key_of ts) signed_part)
          (length-hmac_sha1 (key_of ts) signed_part))

  -- A signed request is a header, the attributes with the identity, and MESSAGE-INTEGRITY at the
  -- end. Its digest is the HMAC, under the key of the credentials, of exactly the bytes of the
  -- message before that attribute, and the header's length counts all attributes, this one
  -- included, if together they fit the 16 bits of the length field.
  pub signed_request-integrity :
      total < 2 ^ 16
      → signed_request msg_type attrs txn_id ts
        ≡ signed_part ++ (0x00 ∷ 0x08 ∷ 0x00 ∷ 0x14 ∷ hmac_sha1 (key_of ts) signed_part)
  unfolding signed_request
  signed_request-integrity h =
      let buf = append_identity attrs ts in
      let tail = 0x00 ∷ 0x08 ∷ 0x00 ∷ 0x14 ∷ hmac_sha1 (key_of ts) signed_part in
      let len : length (buf ++ tail) % 2 ^ 16 ≡ total =
        omega (arith, length-append buf tail, length-hmac_sha1 (key_of ts) signed_part) in
      rw (auth-digest h) (
        rw len (
          set_length-stun_header msg_type total total txn_id (buf ++ tail)
          ∙ sym (append_assoc (stun_header msg_type total txn_id) buf tail)))
