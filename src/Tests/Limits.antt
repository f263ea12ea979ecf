-- ===== src/Tests/Limits.antt =====
-- The limits of requests on concrete inputs.
use wallet_bot.Base.{ℕ, ◌≤◌, ◌≡◌, refl, true, List, [], ◌∷◌}
use wallet_bot.Base.Text.{codes}
use wallet_bot.Limits.{auth, RateLimitConfig}
use wallet_bot.Limits.Window.{Request, let_through, let_through-le-limit}

abbrev config : RateLimitConfig
config = record {
  enabled = true;
  auth_per_minute = 2;
  read_per_minute = 100;
  write_per_minute = 30;
  send_per_hour = 5;
}

abbrev request : ℕ → Request
request now = record { bucket = auth; subject = codes "u1"; cost = 1; now = now; local = [] }

abbrev requests : List Request
requests = request 60000 ∷ request 61000 ∷ request 62000 ∷ request 63000 ∷ request 130000 ∷ []

two_let_through : let_through config auth (codes "u1") 60000 requests [] ≡ 2
unfolding wallet_bot.Limits.check wallet_bot.Limits.bump_rate_limit wallet_bot.Limits.bump_local
two_let_through = refl

let_through-le-limit_example : let_through config auth (codes "u1") 60000 requests [] ≤ 2
let_through-le-limit_example = let_through-le-limit config auth (codes "u1") 60000 requests [] refl
