-- ===== src/Configs/Env.antt =====
-- The readers of the environment in configs/configs.go. `Env` is os.LookupEnv.
use wesko_go_backend.Common.{
  ℕ, suc, ◌-◌, ◌*◌, ◌%◌, Bool, true, false, Option, none, some, List, [], ◌∷◌, ◌++◌, any, is_empty,
  ◌==◌, if◌then◌else◌,
}
use wesko_go_backend.Common.Int.{wrap_int, ℤ, pos, negsuc}
use wesko_go_backend.Common.Text.{Text, codes, eq, trim_space}
use wesko_go_backend.Common.Decimal.{atoi}

abbrev pub Env : Type 0
Env = Text → Option Text

-- os.Getenv
unfoldable pub get_env : Env → Text → Text
get_env env name = elim (env name) [ none ↦ [] | some value ↦ value ]

unfoldable pub get_env_string : Env → Text → Text → Text
get_env_string env name fall_back = elim (env name) [ none ↦ fall_back | some value ↦ value ]

unfoldable pub get_first_env_string : Env → Text → List Text → Text
get_first_env_string env fall_back [] = fall_back
get_first_env_string env fall_back (name ∷ names) =
    let rest = get_first_env_string env fall_back names in
    elim (env name) [
      | none ↦ rest
      | some value ↦ if is_empty (trim_space value) then rest else value
    ]

-- strconv.ParseBool
unfoldable pub parse_bool : Text → Option Bool
parse_bool s =
    if any (eq s)
      (codes "1" ∷ codes "t" ∷ codes "T" ∷ codes "TRUE" ∷ codes "true" ∷ codes "True" ∷ [])
    then some true
    else if any (eq s)
        (codes "0" ∷ codes "f" ∷ codes "F" ∷ codes "FALSE" ∷ codes "false" ∷ codes "False" ∷ [])
    then some false
    else none

unfoldable pub get_env_bool : Env → Text → Bool → Bool
unfolding get_env parse_bool
get_env_bool env name fall_back = elim (parse_bool (get_env env name)) [
  | none ↦ fall_back
  | some b ↦ b
]

unfoldable pub get_env_int : Env → Text → ℤ → ℤ
unfolding get_env
get_env_int env name fall_back = elim (atoi (get_env env name)) [ none ↦ fall_back | some i ↦ i ]

-- strings.Split(s, ","), with the part before
unfoldable pub split_comma : Text → Text → List Text
split_comma part [] = part ∷ []
split_comma part (c ∷ s) =
    let here = part ∷ split_comma [] s in
    let on = split_comma (part ++ (c ∷ [])) s in if c == b',' then here else on

-- The loop of getEnvCSV.
unfoldable pub given_parts : List Text → List Text
given_parts [] = []
given_parts (part ∷ parts) =
    let rest = given_parts parts in
    if is_empty (trim_space part) then rest else trim_space part ∷ rest

unfoldable pub get_env_csv : Env → Text → List Text
unfolding get_env split_comma given_parts
get_env_csv env name =
    let raw = trim_space (get_env env name) in
    if is_empty raw then [] else given_parts (split_comma [] raw)

-- The negation of a number as Go's int.
unfoldable pub wrap_negative : ℕ → ℤ
wrap_negative n = wrap_int (18446744073709551616 - n % 18446744073709551616)

-- `time.Duration(n) * unit`
unfoldable pub duration : ℤ → ℕ → ℤ
unfolding wrap_negative
duration (pos n) unit = wrap_int (n * unit)
duration (negsuc n) unit = wrap_negative (suc n * unit)

-- net.JoinHostPort
unfoldable pub join_host_port : Text → Text → Text
join_host_port host port =
    if any (◌==◌ b':') host
    then codes "[" ++ host ++ codes "]:" ++ port
    else host ++ codes ":" ++ port
