-- ===== src/Send/Failure.antt =====
-- What a step of a publication throws.
use Prim.Native.String.{String}
use veilforge.Base.{Bool, true, false, Option, none, some, Result, ok, err}

-- The codes with the prefix WEB_V4_ that the functions of this file throw, and any other such code.
pub data Code : Type 0 where
  user_gesture_required send_disabled proof_duplicate tx_invalid provider_unavailable : Code
  account_unavailable wrong_network proof_preflight_failed user_rejected timeout : Code
  send_in_flight reconciliation_required : Code
  web_v4 : String → Code

-- A thrown value as the handlers tell it apart: the wallet's refusal (4001 or ACTION_REJECTED), an
-- error with a code of the web application, any other value.
pub data Thrown : Type 0 where
  declined unknown : Thrown
  coded : Code → Thrown

abbrev pub is_user_rejected : Thrown → Bool
is_user_rejected (coded user_rejected) = true
is_user_rejected _ = false

-- `fail(code)` where a test does not hold.
abbrev pub require : Bool → Code → Result Thrown (Unit {0})
require true code = ok tt
require false code = err (coded code)

-- A call whose only news is that it threw.
abbrev pub thrown : Option Thrown → Result Thrown (Unit {0})
thrown none = ok tt
thrown (some e) = err e

-- `try { … } catch { fail(code) }`
abbrev pub else_fail {ℓ} : {E : Type ℓ} {A : Type 0} → Result E A → Code → Result Thrown A
else_fail (ok a) code = ok a
else_fail (err e) code = err (coded code)

-- The same, where errors with a code of the web application go through.
abbrev pub else_fail_uncoded : {A : Type 0} → Result Thrown A → Code → Result Thrown A
else_fail_uncoded (ok a) code = ok a
else_fail_uncoded (err (coded c)) code = err (coded c)
else_fail_uncoded (err declined) code = err (coded code)
else_fail_uncoded (err unknown) code = err (coded code)
