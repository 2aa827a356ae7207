-- ===== src/Crypto.antt =====
-- The comparison of digests written in hexadecimal digits: hexToBytes of apps/portal/src/lib/crypto.ts,
-- which oauth-client.ts has too, and timingSafeEqual on the bytes.
use auth_sso.Base.{
  ℕ, ◌≡◌, refl, Bool, true, false, ◌&&◌, List, [], ◌∷◌, nat_eq, parse_int, to_uint8, arith,
}

-- Two digits at a time; a digit that is left over counts for nothing.
unfoldable pub hex_to_bytes : List ℕ → List ℕ
hex_to_bytes [] = []
hex_to_bytes (a ∷ []) = []
hex_to_bytes (a ∷ b ∷ rest) = to_uint8 (parse_int 16 (a ∷ b ∷ [])) ∷ hex_to_bytes rest

-- `timingSafeEqual`, which is called on buffers of one length.
unfoldable pub same_bytes : List ℕ → List ℕ → Bool
same_bytes [] [] = true
same_bytes (a ∷ as') (b ∷ bs) = nat_eq a b && same_bytes as' bs
same_bytes _ _ = false

pub same_bytes-eq : (a b : List ℕ) → same_bytes a b ≡ true → a ≡ b
unfolding same_bytes
same_bytes-eq [] [] h = refl
same_bytes-eq [] (y ∷ ys) h = cc
same_bytes-eq (x ∷ xs) [] h = cc
same_bytes-eq (x ∷ xs) (y ∷ ys) h = ground (arith, same_bytes-eq xs ys)
