-- ===== src/Visits/Gate.antt =====
-- Without the password, nothing of a share is given away.
use dingbap.Paths.{Storage}
use dingbap.Text.{Text}
use dingbap.Base.{◌≡◌, some, true, false, Bool, Option}
use dingbap.Visits.{gone, asks_password, wrong_password, bad_request, unlocks, Text, Storage}
use dingbap.Shares.{Share}
use dingbap.Visits.{Answer}

-- An answer that gives away nothing of the share: that it is gone, the form for the password, or the
-- cookie where the password is right.
abbrev pub Withholds : (Text → Text → Option Bool) → Share → Option Text → Answer → Type 0
Withholds verify sh pass gone = Unit
Withholds verify sh pass asks_password = Unit
Withholds verify sh pass wrong_password = Unit
Withholds verify sh pass bad_request = Unit
Withholds verify sh pass (unlocks name value) =
    (given : Text) × (pass ≡ some given) × (verify sh.password_hash given ≡ some true)
Withholds verify sh pass a = true ≡ false
