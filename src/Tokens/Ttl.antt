-- ===== src/Tokens/Ttl.antt =====
-- `clampTokenTtl` of apps/portal/src/lib/auth/token.ts, over JavaScript's numbers.
use auth_sso.Base.{
  ℕ, zero, suc, ◌*◌, ◌≤◌, ◌≡◌, Bool, true, false, Option, none, some, min, max, arith,
}

-- A number of JavaScript by what the code asks of it: `finite_nonneg n fraction` lies in [n, n + 1),
-- and is n itself if `fraction` is false; `finite_neg` is below 0.
pub data JsNumber : Type 0 where
  nan : JsNumber
  infinite : Bool → JsNumber
  finite_neg : JsNumber
  finite_nonneg : ℕ → Bool → JsNumber

pub record Bounds : Type 0 where
  pub low : ℕ
  pub high : ℕ

-- TOKEN_TTL
abbrev pub access_token_ttl : ℕ
access_token_ttl = 3600

abbrev pub refresh_token_ttl : ℕ
refresh_token_ttl = 7 * 24 * 3600

abbrev login_session_ttl : ℕ
login_session_ttl = 300

abbrev pub access_bounds : Bounds
access_bounds = record { low = 60; high = 24 * 60 * 60 }

abbrev pub refresh_bounds : Bounds
refresh_bounds = record { low = 5 * 60; high = 30 * 24 * 60 * 60 }

-- `none` is null or undefined.
unfoldable pub clamp_token_ttl : Option JsNumber → ℕ → Bounds → ℕ
clamp_token_ttl none fallback bounds = fallback
clamp_token_ttl (some nan) fallback bounds = fallback
clamp_token_ttl (some (infinite _)) fallback bounds = fallback
clamp_token_ttl (some finite_neg) fallback bounds = fallback
clamp_token_ttl (some (finite_nonneg zero false)) fallback bounds = fallback
clamp_token_ttl (some (finite_nonneg n _)) fallback bounds = min (max n bounds.low) bounds.high

-- Whatever the configured value, the lifetime lies within the bounds, if the fallback does.
pub clamp_token_ttl_bounds :
    (raw : Option JsNumber) (fallback : ℕ) (bounds : Bounds)
    → bounds.low ≤ fallback
    → fallback ≤ bounds.high
    → (bounds.low ≤ clamp_token_ttl raw fallback bounds)
      × (clamp_token_ttl raw fallback bounds ≤ bounds.high)
unfolding clamp_token_ttl
clamp_token_ttl_bounds none f b h k = (h, k)
clamp_token_ttl_bounds (some nan) f b h k = (h, k)
clamp_token_ttl_bounds (some (infinite _)) f b h k = (h, k)
clamp_token_ttl_bounds (some finite_neg) f b h k = (h, k)
clamp_token_ttl_bounds (some (finite_nonneg zero false)) f b h k = (h, k)
clamp_token_ttl_bounds (some (finite_nonneg zero true)) f b h k = omega arith
clamp_token_ttl_bounds (some (finite_nonneg (suc n) _)) f b h k = omega arith

-- A whole positive value within the bounds is kept.
clamp_token_ttl_kept :
    (n fallback : ℕ) (bounds : Bounds)
    → 1 ≤ n
    → bounds.low ≤ n
    → n ≤ bounds.high
    → clamp_token_ttl (some (finite_nonneg n false)) fallback bounds ≡ n
unfolding clamp_token_ttl
clamp_token_ttl_kept zero f b p h k = absurd (omega arith)
clamp_token_ttl_kept (suc n) f b p h k = omega arith
