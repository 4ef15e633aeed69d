-- ===== src/Crypto/Vectors.antt =====
-- The published test vectors of MD5 (RFC 1321), SHA-1 (FIPS 180) and HMAC-SHA1 (RFC 2202).
use any_kvm.Common.{ℕ, ◌+◌, ◌/◌, ◌%◌, ◌≡◌, refl, [], ◌∷◌, ltb, if◌then◌else◌}
use any_kvm.Common.Bytes.{Bytes, codes}
use any_kvm.Crypto.Md5.{md5_hash}
use any_kvm.Crypto.Sha1.{sha1_hash}
use any_kvm.Crypto.Hmac.{hmac_sha1}

abbrev digit : ℕ → ℕ
digit n = if ltb n 10 then b'0' + n else 87 + n

abbrev hex : Bytes → Bytes
hex [] = []
hex (b ∷ bs) = digit (b / 16) ∷ digit (b % 16) ∷ hex bs

md5_empty : hex (md5_hash []) ≡ codes "d41d8cd98f00b204e9800998ecf8427e"
unfolding md5_hash
md5_empty = refl

md5_abc : hex (md5_hash (codes "abc")) ≡ codes "900150983cd24fb0d6963f7d28e17f72"
unfolding md5_hash
md5_abc = refl

sha1_abc : hex (sha1_hash (codes "abc")) ≡ codes "a9993e364706816aba3e25717850c26c9cd0d89d"
unfolding sha1_hash
sha1_abc = refl

hmac_jefe :
    hex (hmac_sha1 (codes "Jefe") (codes "what do ya want for nothing?"))
    ≡ codes "effcdf6ae5eb2fa2d27416d5f184df9c259a7c79"
unfolding hmac_sha1 sha1_hash
hmac_jefe = refl
