-- ===== src/Content.antt =====
-- message/Content.go: the fields of a message, escaped and joined by tabs.
-- A `[]byte` and a `string` are lists of bytes. A method on `*Content` returns the content it leaves.
pub mod Parse
pub mod Sign
mod Tests
use monosulfide.Prelude.{ℕ, Bool, true, false, List, [], ◌∷◌, ◌++◌, map, ◌==◌, if◌then◌else◌}

abbrev pub Bytes : Type 0
Bytes = List ℕ

-- The bytes '\\' and '\t'.
abbrev pub esc : ℕ
esc = 92

abbrev pub tab : ℕ
tab = 9

-- strings.ReplaceAll for a pattern of one byte.
pub replace_all : ℕ → Bytes → Bytes → Bytes
replace_all old new [] = []
replace_all old new (b ∷ s) =
    let rest = replace_all old new s in if b == old then new ++ rest else b ∷ rest

pub escape_tab : Bytes → Bytes
escape_tab s = replace_all tab (esc ∷ tab ∷ []) (replace_all esc (esc ∷ esc ∷ []) s)

-- bytes.Join and strings.Join with the separator "\t".
pub join : List Bytes → Bytes
join [] = []
join (x ∷ []) = x
join (x ∷ y ∷ rest) = x ++ (tab ∷ join (y ∷ rest))

-- NewByteContent and NewStrContent have the same body, over bytes and over strings.
unfoldable pub new_byte_content : List Bytes → Bytes
new_byte_content msgs = join (map escape_tab msgs)

-- AppendByteContent and AppendStrContent have the same body, over bytes and over strings.
unfoldable pub append_byte_content : Bytes → List Bytes → Bytes
append_byte_content content [] = content
append_byte_content content (m ∷ msgs) = (content ++ (tab ∷ [])) ++ join (map escape_tab (m ∷ msgs))

-- The variables of ParseContent's loop: `msgs` without its last entry, that entry, and `escMod`.
pub record ParseState : Type 0 where
  pub msgs : List Bytes
  pub last : Bytes
  pub esc_mod : Bool

-- The loop's body, for the byte `b`.
pub parse_byte : ParseState → ℕ → ParseState
parse_byte s b =
    if b == esc
    then (if s.esc_mod
        then record s { last = s.last ++ b ∷ []; esc_mod = false }
        else record s { esc_mod = true })
    else if b == tab
    then (if s.esc_mod
        then record s { last = s.last ++ b ∷ []; esc_mod = false }
        else record s { msgs = s.msgs ++ s.last ∷ []; last = [] })
    else record s { last = s.last ++ b ∷ [] }

pub parse_bytes : ParseState → Bytes → ParseState
parse_bytes s [] = s
parse_bytes s (b ∷ bs) = parse_bytes (parse_byte s b) bs

abbrev pub parse_start : ParseState
parse_start = record { msgs = []; last = []; esc_mod = false }

unfoldable pub parse_content : Bytes → List Bytes
parse_content content = let s = parse_bytes parse_start content in s.msgs ++ s.last ∷ []

unfoldable pub sign : Bytes → Bytes → Bytes
sign content name = append_byte_content content (name ∷ [])

-- contents[len(contents)-1], for a list that is not empty.
pub last_field : Bytes → List Bytes → Bytes
last_field x [] = x
last_field x (y ∷ rest) = last_field y rest

-- contents[1 : len(contents)-1], read off the fields behind the first.
pub middle_fields : List Bytes → List Bytes
middle_fields [] = []
middle_fields (x ∷ []) = []
middle_fields (x ∷ y ∷ rest) = x ∷ middle_fields (y ∷ rest)

-- The loop of CheckSign, which appends the fields one by one.
pub append_each : Bytes → List Bytes → Bytes
append_each temp [] = temp
append_each temp (x ∷ rest) = append_each (append_byte_content temp (x ∷ [])) rest

-- "ERROR"
abbrev pub error_sign : Bytes
error_sign = 69 ∷ 82 ∷ 82 ∷ 79 ∷ 82 ∷ []

-- The signature that CheckSign returns and the content that it leaves.
-- ParseContent never returns an empty list, so the first case of `fields` is not reached.
check_fields : List Bytes → Bytes → Bytes × Bytes
unfolding last_field middle_fields append_each
check_fields [] content = (error_sign, content)
check_fields (x ∷ rest) content =
    (last_field x rest, append_each (new_byte_content (x ∷ [])) (middle_fields rest))

unfoldable pub check_sign : Bytes → Bytes × Bytes
unfolding check_fields
check_sign [] = (error_sign, [])
check_sign (b ∷ bs) = check_fields (parse_content (b ∷ bs)) (b ∷ bs)

-- SignAndLaunch signs with the sender's key and then with the consensus id in decimal.
unfoldable pub sign_and_launch : Bytes → Bytes → Bytes → Bytes
sign_and_launch content key mode = sign (sign content key) mode

-- The head of the Selector's loop: the mode, the sender's key, and the content behind them.
unfoldable pub read_signs : Bytes → Bytes × Bytes × Bytes
read_signs content =
    let (mode, signed) = check_sign content in
    let (remote_id, rest) = check_sign signed in (mode, remote_id, rest)
