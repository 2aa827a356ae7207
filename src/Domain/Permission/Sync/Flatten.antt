-- ===== src/Domain/Permission/Sync/Flatten.antt =====
-- What the functions of the permission sync compute.
use auth_sso.Base.{
  ℕ, String, suc, ◌+◌, ◌*◌, ◌%◌, ◌≤◌, ◌≡◌, ◌⊎◌, inl, inr, refl, sym, ap, subst, ◌∙◌, true, false,
  Option, none, some, List, [], ◌∷◌, ◌++◌, ◌==◌, if◌then◌else◌, includes, Unique, Among, arith,
  eq_iff, eq_refl,
}
use mathlib.Core.List.{append-nil, append_assoc}
use auth_sso.Domain.Permission.Sync.{
  node, IncomingPermissions, leaf, more, flatten_permissions, FlatPermission, get_hash_code,
  hash_loop, hash_step, word, find_duplicate_code, duplicate_from,
}

-- The text as a polynomial in 31, without any wrap-around.
abbrev horner : ℕ → List ℕ → ℕ
horner a [] = a
horner a (c ∷ s) = horner (31 * a + c) s

hash_step-residue : (a c : ℕ) → hash_step (a % word) c ≡ (31 * a + c) % word
hash_step-residue a c = omega arith

hash_loop-horner : (a : ℕ) (s : List ℕ) → hash_loop (a % word) s ≡ horner a s % word
hash_loop-horner a [] = refl
hash_loop-horner a (c ∷ s) =
    ap (λ h. hash_loop h s) (hash_step-residue a c) ∙ hash_loop-horner (31 * a + c) s

-- `getHashCode` is the distance of the polynomial's value at 31 from the nearest multiple of 2^32,
-- so it lies between 0 and 2^31, for a text of any length.
get_hash_code-horner :
    (s : List ℕ)
    → (get_hash_code s ≤ 2147483648)
      × (((horner 0 s % word) ≡ get_hash_code s) ⊎ ((horner 0 s % word) + get_hash_code s ≡ word))
unfolding get_hash_code
get_hash_code-horner s = ground (arith, hash_loop-horner 0 s)

duplicate_from-none :
    (seen codes : List String)
    → duplicate_from seen codes ≡ none
    → Unique codes × ((c : String) → includes codes c ≡ true → includes seen c ≡ false)
duplicate_from-none seen [] h = (tt, λ c i. cc)
duplicate_from-none seen (x ∷ xs) h =
    let ih = duplicate_from-none (x ∷ seen) xs (ground (arith, h)) in
    ((ground (arith, h, ih.1 x, eq_refl x), ih.0), λ c i. ground (arith, h, i, ih.1 c, eq_iff x c))

abbrev occurrences : String → List String → ℕ
occurrences c [] = 0
occurrences c (x ∷ xs) = let rest = occurrences c xs in if x == c then suc rest else rest

occurrences-includes : (c : String) (xs : List String) → includes xs c ≡ true → 1 ≤ occurrences c xs
occurrences-includes c [] h = cc
occurrences-includes c (x ∷ xs) h = ground (arith, h, occurrences-includes c xs)

duplicate_from-some :
    (seen codes : List String) (c : String)
    → duplicate_from seen codes ≡ some c
    → ((includes seen c ≡ true) × (includes codes c ≡ true)) ⊎ (2 ≤ occurrences c codes)
duplicate_from-some seen [] c h = cc
duplicate_from-some seen (x ∷ xs) c h = ground (
  arith,
  h,
  eq_iff x c,
  eq_refl c,
  duplicate_from-some (x ∷ seen) xs c,
  occurrences-includes c xs,
)

-- `findDuplicateCode` returns null only if no code stands twice, and any code that it
-- returns stands in the list at least twice.
find_duplicate_code_finds :
    (codes : List String)
    → (find_duplicate_code codes ≡ none → Unique codes)
      × ((c : String) → find_duplicate_code codes ≡ some c → 2 ≤ occurrences c codes)
unfolding find_duplicate_code
find_duplicate_code_finds codes = (
  (λ h. (duplicate_from-none [] codes h).0),
  λ c h. ground (arith, duplicate_from-some [] codes c h),
)

abbrev Known : Option String → List String → Type 0
Known none seen = Unit
Known (some p) seen = Among p seen

-- The parents of the permissions stand before them in the list, or among the codes seen.
abbrev ParentsFirst : List String → List FlatPermission → Type 0
ParentsFirst seen [] = Unit
ParentsFirst seen (f ∷ fs) = Known f.parent_id seen × ParentsFirst (f.code ∷ seen) fs

Known-more :
    (o : Option String) (c : String) (seen : List String) → Known o seen → Known o (c ∷ seen)
Known-more none c seen k = tt
Known-more (some p) c seen k = inr k

ParentsFirst-flatten :
    (tree : IncomingPermissions) (parent : Option String) (seen : List String)
    (tail : List FlatPermission)
    → Known parent seen
    → ((before : List String)
        → ((o : Option String) → Known o seen → Known o before)
        → ParentsFirst before tail)
    → ParentsFirst seen (flatten_permissions tree parent ++ tail)
unfolding flatten_permissions
ParentsFirst-flatten leaf parent seen tail k t = t seen (λ o h. h)
ParentsFirst-flatten (more (node n children) rest) parent seen tail k t = (
  k,
  subst (ParentsFirst (n.code ∷ seen))
      (sym (append_assoc (flatten_permissions children (some n.code)) _ tail))
      (ParentsFirst-flatten children (some n.code) (n.code ∷ seen)
        (flatten_permissions rest parent ++ tail) (inl refl)
        (λ before g.
          ParentsFirst-flatten rest parent before tail (g parent (Known-more parent n.code seen k))
            (λ after f. t after (λ o q. f o (g o (Known-more o n.code seen q)))))),
)

-- `flattenPermissions` of a whole tree lists every permission after its parent, so one pass over the
-- list finds the row of each parent already written.
flatten_permissions-ParentsFirst :
    (tree : IncomingPermissions) → ParentsFirst [] (flatten_permissions tree none)
flatten_permissions-ParentsFirst tree =
    subst (ParentsFirst []) (append-nil (flatten_permissions tree none))
      (ParentsFirst-flatten tree none [] [] tt (λ before g. tt))
