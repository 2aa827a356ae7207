-- ===== src/Tokens/Pkce.antt =====
-- apps/portal/src/domain/auth/oauth-code.ts. SHA-256 on the bytes of a text, and `atob` on its
-- characters, which may throw, are parameters.
use auth_sso.Base.{
  codes, ℕ, String, ◌≡◌, refl, sym, ap, Bool, true, false, not, ◌||◌, Option, none, some, List, [],
  ◌∷◌, map, nat_eq, length, if◌then◌else◌, arith,
}

-- `.replace(/-/g, '+').replace(/_/g, '/')`
abbrev pub unescaped : ℕ → ℕ
unescaped c = if nat_eq c 45 then 43 else if nat_eq c 95 then 47 else c

abbrev differs : List ℕ → List ℕ → Bool
differs (a ∷ as') (b ∷ bs) = not (nat_eq a b) || differs as' bs
differs _ _ = false

-- The accumulated XOR of two bytes is zero exactly if they are equal.
unfoldable pub constant_time_equal : List ℕ → List ℕ → Bool
constant_time_equal a b = if not (nat_eq (length a) (length b)) then false else not (differs a b)

abbrev matched : List ℕ → Option (List ℕ) → Bool
matched digest none = false
matched digest (some bytes) = constant_time_equal digest bytes

-- False if it throws, which it does also where `atob` does.
unfoldable pub verify_pkce : (String → List ℕ) → (List ℕ → Option (List ℕ)) → String → String → Bool
verify_pkce digest atob verifier challenge =
    matched (digest verifier) (atob (map unescaped (codes challenge)))

differs-equal : (a b : List ℕ) → length a ≡ length b → differs a b ≡ false → a ≡ b
differs-equal [] [] l h = refl
differs-equal [] (y ∷ ys) l h = ground arith
differs-equal (x ∷ xs) [] l h = ground arith
differs-equal (x ∷ xs) (y ∷ ys) l h = ground (arith, l, h, differs-equal xs ys)

constant_time_equal-equal : (a b : List ℕ) → constant_time_equal a b ≡ true → a ≡ b
unfolding constant_time_equal
constant_time_equal-equal a b h = differs-equal a b (ground (arith, h)) (ground (arith, h))

-- The verification passes only on a challenge that decodes to the very digest of the verifier.
pub verify_pkce-digest :
    (digest : String → List ℕ) (atob : List ℕ → Option (List ℕ)) (verifier challenge : String)
    → verify_pkce digest atob verifier challenge ≡ true
    → atob (map unescaped (codes challenge)) ≡ some (digest verifier)
unfolding verify_pkce
verify_pkce-digest digest atob verifier challenge h =
    split (atob (map unescaped (codes challenge))) h
  where
    split : (o : Option (List ℕ)) → matched (digest verifier) o ≡ true → o ≡ some (digest verifier)
    split none q = cc
    split (some bytes) q = ap some (sym (constant_time_equal-equal (digest verifier) bytes q))
