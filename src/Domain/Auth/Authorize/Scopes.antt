-- ===== src/Domain/Auth/Authorize/Scopes.antt =====
-- The scopes that `parseScopes` reads, and their check against the client's.
use auth_sso.Base.{
  is_space, String, ◌≡◌, ◌↔◌, refl, sym, ap, ◌∙◌, if_true, if_false, true, false, List, [], ◌∷◌,
  arith, eq_iff, eq_refl, truthy_text, includes, includes_iff, Among, All, All-of_Among, All-at,
  Unique, if_cases,
}
use auth_sso.Errors.{ok}
use auth_sso.Permissions.{dedup_from}
use auth_sso.Permissions.Context.{dedup_from-Among, Unique-dedup_from}
use auth_sso.Domain.Auth.Authorize.{parse_scopes, words, emit, validate_requested_scopes}
use Prim.Native.Char.{code}
use Prim.Native.String
use Prim.Native.String.append
use text.Mathlib.TextLemmas.{append-nil, append_assoc}

-- A scope that was read is not the empty text.
IsWord : String → Type 0
IsWord w = truthy_text w ≡ true

emit-IsWord : (w : String) (ws : List String) → All IsWord ws → All IsWord (emit w ws)
unfolding IsWord
emit-IsWord w ws h = ground (arith, h)

words-IsWord : (w s : String) → All IsWord (words w s)
unfolding words
words-IsWord w String.[] = emit-IsWord w [] tt
words-IsWord w (String.◌∷◌ c s) =
    if_cases (All IsWord) (is_space (code c)) (λ _. emit-IsWord w (words "" s) (words-IsWord "" s))
      (λ _. words-IsWord (String.◌++◌ w (String.◌∷◌ c String.[])) s)

-- `parseScopes` reads every word of the text that is not empty, each once.
parse_scopes-words :
    (input : String)
    → All (λ w. truthy_text w ≡ true) (parse_scopes input)
      × Unique (parse_scopes input)
      × ((w : String) → Among w (parse_scopes input) ↔ Among w (words "" input))
unfolding parse_scopes IsWord
parse_scopes-words input =
    let among = λ (w : String). dedup_from-Among w [] (words "" input) in
    (
      All-of_Among (parse_scopes input)
          (λ w m. All-at IsWord (words "" input) (words-IsWord "" input) ((among w).0 m).0),
      Unique-dedup_from [] (words "" input),
      λ w. ((λ m. ((among w).0 m).0), λ m. (among w).1 (m, refl)),
    )

-- `validateRequestedScopes` passes exactly if every requested scope is registered for the client.
pub requested_scopes_iff :
    (requested allowed : List String)
    → (validate_requested_scopes requested allowed ≡ ok tt)
      ↔ All (λ scope. Among scope allowed) requested
unfolding validate_requested_scopes
requested_scopes_iff [] allowed = ground arith
requested_scopes_iff (r ∷ rs) allowed =
    ground (arith, requested_scopes_iff rs allowed, includes_iff allowed r)

-- No character of the text is white space.
abbrev SpaceFree : String → Type 0
SpaceFree String.[] = Unit
SpaceFree (String.◌∷◌ c s) = (is_space (code c) ≡ false) × SpaceFree s

words-append :
    (w s t : String) → SpaceFree s → words w (String.◌++◌ s t) ≡ words (String.◌++◌ w s) t
unfolding words
words-append w String.[] t h =
    ap (words w) (append.nil t) ∙ sym (ap (λ v. words v t) (append-nil w))
words-append w (String.◌∷◌ c s) t h =
    ap (words w) (append.cons c s t)
    ∙ if_false (is_space (code c)) (emit w (words "" (String.◌++◌ s t))) h.0
    ∙ words-append (String.◌++◌ w (String.◌∷◌ c String.[])) s t h.1
    ∙ ap (λ v. words v t)
        (append_assoc w (String.◌∷◌ c String.[]) s
          ∙ ap (String.◌++◌ w) (append.cons c String.[] s ∙ ap (String.◌∷◌ c) (append.nil s)))

-- `scopes.join(' ')`
abbrev pub join_scopes : List String → String
join_scopes [] = ""
join_scopes (x ∷ []) = x
join_scopes (x ∷ y ∷ xs) = String.◌++◌ x (String.◌++◌ " " (join_scopes (y ∷ xs)))

words-join :
    (x : String) (xs : List String)
    → All (λ s. IsWord s × SpaceFree s) (x ∷ xs)
    → words "" (join_scopes (x ∷ xs)) ≡ x ∷ xs
unfolding words IsWord
words-join x [] (h, _) =
    ap (words "") (sym (append-nil x))
    ∙ words-append "" x "" h.1
    ∙ ap (λ v. words v "") (append.nil x)
    ∙ if_true (truthy_text x) [] h.0
words-join x (y ∷ xs) (h, k) =
    words-append "" x (String.◌++◌ " " (join_scopes (y ∷ xs))) h.1
    ∙ ap (λ v. words v (String.◌++◌ " " (join_scopes (y ∷ xs)))) (append.nil x)
    ∙ ap (words x) (append.cons _ "" (join_scopes (y ∷ xs)))
    ∙ ap (λ v. emit x (words "" v)) (append.nil (join_scopes (y ∷ xs)))
    ∙ if_true (truthy_text x) (words "" (join_scopes (y ∷ xs))) h.0
    ∙ ap (λ ws. x ∷ ws) (words-join y xs k)

dedup_from-Unique :
    (seen xs : List String)
    → ((c : String) → includes xs c ≡ true → includes seen c ≡ false)
    → Unique xs
    → dedup_from seen xs ≡ xs
unfolding dedup_from
dedup_from-Unique seen [] n u = refl
dedup_from-Unique seen (x ∷ xs) n u =
    if_false (includes seen x) (dedup_from seen xs) (n x (ground (arith, eq_refl x)))
    ∙ ap (λ ys. x ∷ ys)
        (dedup_from-Unique (x ∷ seen) xs (λ c m. ground (arith, m, u.0, n c, eq_iff x c)) u.1)

-- Distinct scopes with no white space, joined by blanks, are read back as they are.
pub parse_scopes-join :
    (xs : List String)
    → All (λ s. (truthy_text s ≡ true) × SpaceFree s) xs
    → Unique xs
    → parse_scopes (join_scopes xs) ≡ xs
unfolding parse_scopes IsWord dedup_from words
parse_scopes-join [] h u = refl
parse_scopes-join (x ∷ xs) h u =
    ap (dedup_from []) (words-join x xs h) ∙ dedup_from-Unique [] (x ∷ xs) (λ c m. refl) u
