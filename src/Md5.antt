-- ===== src/Md5.antt =====
-- The class MD5 (utils/md5.cc and utils/md5.h), around the hash of OpenSSL, which is a parameter:
-- the contexts, MD5_Init, MD5_Update and MD5_Final, with what OpenSSL documents of them. The assert
-- of Update, that the hasher is not finalized, is not evaluated.
pub mod Fed
use service_control_client_c.Prelude.{
  ℕ, ◌+◌, ◌*◌, ◌/◌, ◌%◌, ◌^◌, ◌≡◌, Bool, true, false, List, [], ◌∷◌, ◌++◌, Text, nat_beq, ltb,
  if◌then◌else◌, ℤ, pos, negsuc, ◌-◌,
}

-- A context after the updates with some pieces of a message, and the message.
abbrev pub fed {ℓ} : {C : Type ℓ} → (Text → C → C) → C → List Text → C
fed update c [] = c
fed update c (x ∷ xs) = fed update (update x c) xs

abbrev pub message : List Text → Text
message [] = []
message (x ∷ xs) = x ++ message xs

-- `MD5_Final` returns the digest and a context of which nothing is known. The hash of a message is
-- the same in whatever pieces MD5_Update gets it.
pub record OpenSsl : Type 1 where
  pub Context : Type 0
  pub init : Context
  pub update : Text → Context → Context
  pub final : Context → Text × Context
  pub hash : Text → Text
  pub streams : (pieces : List Text) → (final (fed update init pieces)).0 ≡ hash (message pieces)

-- `Update(const char*)`: the bytes up to the first 0.
unfoldable pub until_nul : Text → Text
until_nul [] = []
until_nul (x ∷ xs) = if nat_beq x 0 then [] else x ∷ until_nul xs

-- The bytes of an `int` in memory (four, the lowest first).
abbrev pub low_bytes : ℕ → Text
low_bytes n = (n % 256) ∷ (n / 256 % 256) ∷ (n / 65536 % 256) ∷ (n / 16777216 % 256) ∷ []

unfoldable pub int_bytes : ℤ → Text
int_bytes (pos n) = low_bytes n
int_bytes (negsuc n) = low_bytes (2 ^ 32 - 1 - n % 2 ^ 32)

-- `sprintf("%02x")` of a byte, and the loop of `DebugString`
abbrev pub hex_digit : ℕ → ℕ
hex_digit n = if ltb n 10 then 48 + n else 87 + n

unfoldable pub debug_string : Text → Text
debug_string [] = []
debug_string (x ∷ xs) = hex_digit (x / 16) ∷ hex_digit (x % 16) ∷ debug_string xs

module _ (ssl : OpenSsl) where
  -- The members of the class.
  pub record Md5 : Type 0 where
    pub ctx : ssl.Context
    pub digest : Text
    pub finalized : Bool

  -- The constructor.
  unfoldable pub new_md5 : Md5
  new_md5 = record { ctx = ssl.init; digest = []; finalized = false }

  -- `Update`, for data, a C string, and an int
  unfoldable pub update : Text → Md5 → Md5
  update bytes m = record m { ctx = ssl.update bytes m.ctx }

  unfoldable pub update_cstring : Text → Md5 → Md5
  update_cstring str m = update (until_nul str) m

  unfoldable pub update_int : ℤ → Md5 → Md5
  update_int d m = update (int_bytes d) m

  -- `Digest`
  unfoldable pub digest : Md5 → Md5 × Text
  digest m =
      let (d, c) = ssl.final m.ctx in
      if m.finalized then (m, m.digest) else (record m { ctx = c; digest = d; finalized = true }, d)

  -- `operator()`
  unfoldable pub digest_of : Text → Md5 → Md5 × Text
  digest_of bytes m = digest (update bytes m)
