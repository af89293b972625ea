-- ===== src/Copies.antt =====
-- Copies and duplicates (copy.go): the name of the copy, the copy of a tree of files within its
-- bounds, and the handlers.
pub mod Trees
pub mod Requests
pub mod Bounded
pub mod Named
pub mod Placed
pub mod Answered
pub mod Shown
mod Examples
use dingbap.Files.Served.{ext}
use dingbap.Text.{Text, codes}
use dingbap.Paths.{Stat, append_part, FileSystem, FilePath}
use dingbap.Base.{
  ◌∷◌, [], ◌++◌, ◌+◌, ◌-◌, ◌/◌, ◌%◌, if◌then◌else◌, none, some, true, false, Bool, Option, ℕ, zero,
  suc, ltb, take, length,
}
use dingbap.Paths

-- The decimal digits of a number; one round for each digit is enough, and there are at most as many
-- as the number.
unfoldable pub digits : ℕ → ℕ → Text
digits zero n = []
digits (suc fuel) n =
    let more = digits fuel (n / 10) in
    if ltb n 10 then (b'0' + n) ∷ [] else more ++ ((b'0' + n % 10) ∷ [])

-- `%d`
unfoldable pub decimal : ℕ → Text
unfolding digits
decimal n = digits (n + 1) n

-- `strings.TrimSuffix(name, ext)` where the name ends with it.
abbrev pub without_ext : Text → Text
without_ext name = take (length name - length (ext name)) name

unfoldable pub copy_name_candidate : Text → ℕ → Text
unfolding ext decimal
copy_name_candidate name zero = name
copy_name_candidate name (suc zero) = without_ext name ++ (codes " copy" ++ ext name)
copy_name_candidate name (suc (suc n)) =
    without_ext name ++ (codes " copy " ++ (decimal (suc (suc n)) ++ ext name))

abbrev pub is_absent : Stat → Bool
is_absent Paths.absent = true
is_absent s = false

-- The loop over the candidates from `n` on; the fuel is the number of rounds left.
unfoldable pub first_free : ℕ → FileSystem → FilePath → Text → ℕ → Option Text
unfolding copy_name_candidate append_part
first_free zero fs dir name n = none
first_free (suc rounds) fs dir name n =
    let candidate = copy_name_candidate name n in
    let later = first_free rounds fs dir name (suc n) in
    if is_absent (fs.stat (append_part dir candidate)) then some candidate else later

abbrev pub max_rounds : ℕ
max_rounds = 10000

-- The clock in nanoseconds makes the name where every candidate is taken.
abbrev pub or_dated : ℕ → Text → Option Text → Text
or_dated nanos name none = name ++ (codes " copy " ++ decimal nanos)
or_dated nanos name (some candidate) = candidate

unfoldable pub unique_copy_name : FileSystem → ℕ → FilePath → Text → Text
unfolding first_free decimal
unique_copy_name fs nanos dir name = or_dated nanos name (first_free max_rounds fs dir name 0)
