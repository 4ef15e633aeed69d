-- ===== src/Crypto/Hmac.antt =====
-- `hmac_sha1` of agent/src/webrtc.rs.
use any_kvm.Common.{ℕ, ◌-◌, ◌++◌, map, bit_xor, ltb, if◌then◌else◌, length, replicate}
use any_kvm.Common.Bytes.{Bytes}
use any_kvm.Crypto.Sha1.{sha1_hash}

-- The 64 bytes of `k`: the key, or its hash if it is longer, and zeros.
unfoldable pub key_block : Bytes → Bytes
key_block key =
    let short : Bytes = if ltb 64 (length key) then sha1_hash key else key in
    short ++ replicate (64 - length short) 0

-- `ipad[i] ^= k[i]` over all positions, and `opad` likewise.
abbrev xor_pad : ℕ → Bytes → Bytes
xor_pad byte k = map (λ b. bit_xor byte b) k

unfoldable pub hmac_sha1 : Bytes → Bytes → Bytes
unfolding key_block
hmac_sha1 key message =
    let k = key_block key in
    let inner_hash = sha1_hash (xor_pad 0x36 k ++ message) in
    sha1_hash (xor_pad 0x5c k ++ inner_hash)
