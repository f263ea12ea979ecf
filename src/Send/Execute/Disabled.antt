-- ===== src/Send/Execute/Disabled.antt =====
-- The kill switches: packages/core/src/services/send.ts, `assertSendingEnabled`.
use wallet_bot.Base.{ℕ, ◌≡◌, Bool, false, ◌&&◌, arith, refl}
use wallet_bot.Base.Result.{Result, err}
use wallet_bot.Base.Text.{Text}
use wallet_bot.Domain.Enums.{sending_disabled}
use wallet_bot.Send.Store.{Failure, app, SendRow}
use wallet_bot.Send.Quote.{SendingConfig, Surroundings, QuoteRequest, assert_sending_enabled, quote}
use wallet_bot.Send.Execute.{Calls, World, SendConfirmRequest, confirm}

refuse :
    (config : SendingConfig) (db_enabled : Bool)
    → (config.enabled && db_enabled) ≡ false
    → assert_sending_enabled config db_enabled ≡ err (app sending_disabled)
unfolding assert_sending_enabled
refuse config db_enabled off = ground arith

-- While sending is disabled in the configuration or in the database, a quote and a confirmation
-- both end with the error for it, and the confirmation leaves the state as it was.
pub disabled_refuses :
    (config : SendingConfig) (around : Surroundings)
    → (config.enabled && around.db_enabled) ≡ false
    → (fp : SendRow → Text) (new_id user_id : Text) (asked : QuoteRequest) (calls : Calls)
      (pin : Result Failure (Unit {0})) (request : SendConfirmRequest) (now : ℕ) (w : World)
    → (quote fp config around new_id user_id asked now w.rows ≡ err (app sending_disabled))
      × (confirm calls config around.db_enabled pin user_id request now w
          ≡ (err (app sending_disabled), w))
unfolding quote confirm
disabled_refuses config around off fp new_id user_id asked calls pin request now w =
    rw (refuse config around.db_enabled off) (refl, refl)
