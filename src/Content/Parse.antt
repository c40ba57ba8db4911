-- ===== src/Content/Parse.antt =====
-- ParseContent undoes the escaping, whatever bytes the fields hold.
use monosulfide.Prelude.{
  ℕ, ◌≡◌, refl, sym, ◌∙◌, false, List, [], ◌∷◌, ◌++◌, map, append-nil, append_assoc, ◌==◌,
  if◌then◌else◌, arith, Bool-cases, inl, inr,
}
use monosulfide.Content.{
  Bytes, esc, tab, replace_all, escape_tab, join, new_byte_content, append_byte_content, ParseState,
  parse_byte, parse_bytes, parse_start, parse_content,
}

replace_all-append :
    (old : ℕ) (new xs ys : Bytes)
    → replace_all old new (xs ++ ys) ≡ replace_all old new xs ++ replace_all old new ys
unfolding replace_all
replace_all-append old new [] ys = refl
replace_all-append old new (x ∷ xs) ys = elim (Bool-cases (x == old)) [
  | inl hit ↦ rw (hit, replace_all-append old new xs ys) (sym (append_assoc new _ _))
  | inr miss ↦ rw (miss, replace_all-append old new xs ys) refl
]

-- What one byte of a field becomes.
escape_byte : ℕ → Bytes
escape_byte b = if b == esc then esc ∷ esc ∷ [] else if b == tab then esc ∷ tab ∷ [] else b ∷ []

escape_tab-cons : (b : ℕ) (s : Bytes) → escape_tab (b ∷ s) ≡ escape_byte b ++ escape_tab s
unfolding escape_tab escape_byte replace_all
escape_tab-cons b s = ground arith

pub parse_bytes-append :
    (s : ParseState) (xs ys : Bytes) → parse_bytes s (xs ++ ys) ≡ parse_bytes (parse_bytes s xs) ys
unfolding parse_bytes
parse_bytes-append s [] ys = refl
parse_bytes-append s (x ∷ xs) ys = parse_bytes-append (parse_byte s x) xs ys

abbrev reading : List Bytes → Bytes → ParseState
reading msgs last = record { msgs = msgs; last = last; esc_mod = false }

parse-escape_byte :
    (msgs : List Bytes) (last : Bytes) (b : ℕ)
    → parse_bytes (reading msgs last) (escape_byte b) ≡ reading msgs (last ++ b ∷ [])
unfolding parse_bytes parse_byte escape_byte
parse-escape_byte msgs last b = ground arith

-- An escaped field is read back into the last entry, byte for byte.
parse-escape_tab :
    (msgs : List Bytes) (last m : Bytes)
    → parse_bytes (reading msgs last) (escape_tab m) ≡ reading msgs (last ++ m)
parse-escape_tab msgs last [] = unfold escape_tab replace_all parse_bytes in rw (append-nil last)
parse-escape_tab msgs last (b ∷ m) = rw (
  escape_tab-cons b m,
  parse_bytes-append (reading msgs last) (escape_byte b) (escape_tab m),
  parse-escape_byte msgs last b,
  parse-escape_tab msgs (last ++ b ∷ []) m,
  append_assoc last (b ∷ []) m,
)

-- The state after the fields `m ∷ ms` when the entries `msgs` stand before them.
pub ended : List Bytes → Bytes → List Bytes → ParseState
ended msgs m [] = reading msgs m
ended msgs m (x ∷ xs) = ended (msgs ++ m ∷ []) x xs

abbrev pub fields : ParseState → List Bytes
fields s = s.msgs ++ s.last ∷ []

pub fields-ended :
    (msgs : List Bytes) (m : Bytes) (ms : List Bytes) → fields (ended msgs m ms) ≡ msgs ++ m ∷ ms
unfolding ended
fields-ended msgs m [] = refl
fields-ended msgs m (x ∷ xs) =
    fields-ended (msgs ++ m ∷ []) x xs ∙ append_assoc msgs (m ∷ []) (x ∷ xs)

pub esc_mod-ended :
    (msgs : List Bytes) (m : Bytes) (ms : List Bytes) → (ended msgs m ms).esc_mod ≡ false
unfolding ended
esc_mod-ended msgs m [] = refl
esc_mod-ended msgs m (x ∷ xs) = esc_mod-ended (msgs ++ m ∷ []) x xs

parse_tab :
    (msgs : List Bytes) (last : Bytes) (bs : Bytes)
    → parse_bytes (reading msgs last) (tab ∷ bs) ≡ parse_bytes (reading (msgs ++ last ∷ []) []) bs
unfolding parse_bytes parse_byte
parse_tab msgs last bs = refl

pub parse-join :
    (msgs : List Bytes) (last m : Bytes) (ms : List Bytes)
    → parse_bytes (reading msgs last) (join (map escape_tab (m ∷ ms))) ≡ ended msgs (last ++ m) ms
unfolding join ended
parse-join msgs last m [] = parse-escape_tab msgs last m
parse-join msgs last m (x ∷ xs) =
    rw
      (
        parse_bytes-append (reading msgs last) (escape_tab m)
            (tab ∷ join (map escape_tab (x ∷ xs))),
        parse-escape_tab msgs last m,
        parse_tab msgs (last ++ m) (join (map escape_tab (x ∷ xs))),
      )
      (parse-join (msgs ++ (last ++ m) ∷ []) [] x xs)

-- The content holds these fields, and no escape is left open at its end.
pub record Encodes (content : Bytes) (fs : List Bytes) : Type 0 where
  pub parsed : parse_content content ≡ fs
  pub closed : (parse_bytes parse_start content).esc_mod ≡ false

pub Encodes-new : (m : Bytes) (ms : List Bytes) → Encodes (new_byte_content (m ∷ ms)) (m ∷ ms)
unfolding new_byte_content parse_content
Encodes-new m ms = record {
  parsed = rw (parse-join [] [] m ms) (fields-ended [] m ms);
  closed = rw (parse-join [] [] m ms) (esc_mod-ended [] m ms);
}

after_tab : (s : ParseState) → s.esc_mod ≡ false → parse_bytes s (tab ∷ []) ≡ reading (fields s) []
unfolding parse_bytes parse_byte
after_tab s h = ground arith

Encodes-append_cons :
    (content : Bytes) (fs : List Bytes) (m : Bytes) (ms : List Bytes)
    → Encodes content fs
    → parse_bytes parse_start (append_byte_content content (m ∷ ms)) ≡ ended fs m ms
unfolding append_byte_content parse_content
Encodes-append_cons content fs m ms e =
    rw
      (
        parse_bytes-append parse_start (content ++ tab ∷ []) (join (map escape_tab (m ∷ ms))),
        parse_bytes-append parse_start content (tab ∷ []),
        after_tab (parse_bytes parse_start content) e.closed,
        e.parsed,
      )
      (parse-join fs [] m ms)

pub Encodes-append :
    (content : Bytes) (fs ms : List Bytes)
    → Encodes content fs
    → Encodes (append_byte_content content ms) (fs ++ ms)
Encodes-append content fs [] e = unfold append_byte_content in rw (append-nil fs) e
Encodes-append content fs (m ∷ ms) e = record {
  parsed =
      unfold parse_content in rw (Encodes-append_cons content fs m ms e) (fields-ended fs m ms);
  closed = rw (Encodes-append_cons content fs m ms e) (esc_mod-ended fs m ms);
}
