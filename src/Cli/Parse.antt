-- ===== src/Cli/Parse.antt =====
-- How the client reads numbers and options from its arguments. The conversions of the C++ library
-- are parameters: they give the number and how many characters they have read, or throw.
use radahn.Common.{
  ℕ, ◌==◌, ◌*◌, ◌%◌, ◌/◌, ◌-◌, ltb, ℤ, pos, negsuc, ltb_ℤ, leb_ℤ, Bool, true, false, not, ◌||◌,
  Option, none, some, List, [], ◌∷◌, ◌++◌, Str, str_eq, length, word_mod, Result, ok, err, throw_if,
  if◌then◌else◌, ◌>>=◌, ◌>>◌,
}

pub data CliError : Type 0 where
  invalid_integer : Str → CliError
  invalid_number : Str → CliError
  invalid_size : Str → CliError
  missing_value : Str → CliError
  attempts_not_positive : CliError
  unknown_option : Str → CliError

abbrev pub mebibyte : ℕ
mebibyte = 1048576

-- `throw;` of a conversion becomes the error that the function's handler throws.
abbrev pub or_error : {A : Type 0} → Option A → CliError → Result CliError A
or_error none e = err e
or_error (some a) e = ok a

abbrev pub int_limit : ℕ
int_limit = 2147483648

abbrev pub beyond_int : ℤ → Bool
beyond_int value = ltb_ℤ value (negsuc (int_limit - 1)) || leb_ℤ (pos int_limit) value

module _ (stol : Str → Option (ℤ × ℕ)) where
  unfoldable pub parse_int : Str → Str → Result CliError ℤ
  parse_int text field_name = do
    read ← or_error (stol text) (invalid_integer field_name)
    throw_if (not (read.1 == length text)) (invalid_integer field_name)
    throw_if (beyond_int read.0) (invalid_integer field_name)
    ok read.0

module _ {F : Type 0} (stod : Str → Option (F × ℕ)) where
  unfoldable pub parse_double : Str → Str → Result CliError F
  parse_double text field_name = do
    read ← or_error (stod text) (invalid_number field_name)
    throw_if (not (read.1 == length text)) (invalid_number field_name)
    ok read.0

-- The text is empty or begins with a minus sign.
abbrev pub not_a_size : Str → Bool
not_a_size [] = true
not_a_size (c ∷ text) = str_eq (c ∷ []) (b'-' ∷ [])

module _ (stoull : Str → Option (ℕ × ℕ)) where
  unfoldable pub parse_mib : Str → Str → Result CliError ℕ
  parse_mib text field_name = do
    throw_if (not_a_size text) (invalid_size field_name)
    read ← or_error (stoull text) (invalid_size field_name)
    throw_if (not (read.1 == length text)) (invalid_size field_name)
    throw_if (ltb ((word_mod - 1) / mebibyte) read.0) (invalid_size field_name)
    ok ((read.0 * mebibyte) % word_mod)

abbrev pub gpu_flag : Str
gpu_flag = b'-' ∷ b'-' ∷ b'g' ∷ b'p' ∷ b'u' ∷ []

abbrev pub tag_flag : Str
tag_flag = b'-' ∷ b'-' ∷ b't' ∷ b'a' ∷ b'g' ∷ []

abbrev pub max_attempts_flag : Str
max_attempts_flag =
    b'-' ∷ b'-' ∷ b'm' ∷ b'a' ∷ b'x' ∷ b'-' ∷ b'a' ∷ b't' ∷ b't' ∷ b'e' ∷ b'm' ∷ b'p' ∷ b't' ∷ b's'
    ∷ []

abbrev pub max_attempts_field : Str
max_attempts_field =
    b'm' ∷ b'a' ∷ b'x' ∷ b'-' ∷ b'a' ∷ b't' ∷ b't' ∷ b'e' ∷ b'm' ∷ b'p' ∷ b't' ∷ b's' ∷ []

pub data Flag : Type 0 where
  gpu tag max_attempts unknown_flag : Flag

unfoldable pub flag_of : Str → Flag
flag_of argument =
    if str_eq argument gpu_flag
    then gpu
    else if str_eq argument tag_flag
    then tag
    else if str_eq argument max_attempts_flag
    then max_attempts
    else unknown_flag

-- The options of a submission.
pub record Options : Type 0 where
  pub requires_gpu : Bool
  pub max_attempts : ℕ
  pub tags : List Str

abbrev pub default_options : Options
default_options = record { requires_gpu = false; max_attempts = 3; tags = [] }

abbrev pub positive_attempts : ℤ → Result CliError ℕ
positive_attempts (pos n) = if n == 0 then err attempts_not_positive else ok n
positive_attempts (negsuc n) = err attempts_not_positive

module _ (stol : Str → Option (ℤ × ℕ)) where
  unfoldable pub parse_attempts : Str → Result CliError ℕ
  unfolding parse_int
  parse_attempts text = do parsed ← parse_int stol text max_attempts_field; positive_attempts parsed

  -- The loop over the options.
  unfoldable pub read_options : Options → List Str → Result CliError Options
  unfolding parse_attempts
  read_options options [] = ok options
  read_options options (argument ∷ []) = elim (flag_of argument) [
    | gpu ↦ ok (record options { requires_gpu = true })
    | tag ↦ err (missing_value tag_flag)
    | max_attempts ↦ err (missing_value max_attempts_flag)
    | unknown_flag ↦ err (unknown_option argument)
  ]
  read_options options (argument ∷ value ∷ rest) = elim (flag_of argument) [
    | gpu ↦ read_options (record options { requires_gpu = true }) (value ∷ rest)
    | tag ↦ read_options (record options { tags = options.tags ++ value ∷ [] }) rest
    | max_attempts ↦ elim (parse_attempts value) [
      | err e ↦ err e
      | ok n ↦ read_options (record options { max_attempts = n }) rest
    ]
    | unknown_flag ↦ err (unknown_option argument)
  ]
