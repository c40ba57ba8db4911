-- ===== src/Content/Sign.antt =====
-- Sign and CheckSign, as SignAndLaunch and the Selector pair them.
use monosulfide.Prelude.{
  ◌≡◌, refl, sym, ◌∙◌, ap, List, [], ◌∷◌, ◌++◌, map, append_assoc, append-nil,
}
use monosulfide.Content.{
  Bytes, tab, escape_tab, join, new_byte_content, append_byte_content, parse_content, sign,
  last_field, middle_fields, append_each, check_fields, check_sign, sign_and_launch, read_signs,
}
use monosulfide.Content.Parse.{Encodes, Encodes-new, Encodes-append}

join_snoc :
    (x : Bytes) (xs : List Bytes) (y : Bytes)
    → join (x ∷ xs ++ y ∷ []) ≡ (join (x ∷ xs) ++ tab ∷ []) ++ y
unfolding join
join_snoc x [] y = sym (append_assoc x (tab ∷ []) y)
join_snoc x (z ∷ xs) y = rw (join_snoc z xs y) (
    sym (
      append_assoc (x ++ tab ∷ join (z ∷ xs)) (tab ∷ []) y
      ∙ append_assoc x (tab ∷ join (z ∷ xs)) (tab ∷ y)
      ∙ ap (λ t. x ++ tab ∷ t) (sym (append_assoc (join (z ∷ xs)) (tab ∷ []) y))))

map_snoc :
    (xs : List Bytes) (y : Bytes)
    → map escape_tab (xs ++ y ∷ []) ≡ map escape_tab xs ++ escape_tab y ∷ []
map_snoc [] y = refl
map_snoc (x ∷ xs) y = ap (◌∷◌ (escape_tab x)) (map_snoc xs y)

-- Appending one field to a fresh content is the fresh content of one more field.
pub append-new :
    (m : Bytes) (ms : List Bytes) (x : Bytes)
    → append_byte_content (new_byte_content (m ∷ ms)) (x ∷ []) ≡ new_byte_content (m ∷ ms ++ x ∷ [])
unfolding append_byte_content new_byte_content join
append-new m ms x = sym (
    ap (λ t. join (escape_tab m ∷ t)) (map_snoc ms x)
    ∙ join_snoc (escape_tab m) (map escape_tab ms) (escape_tab x))

append_each-new :
    (m : Bytes) (ms xs : List Bytes)
    → append_each (new_byte_content (m ∷ ms)) xs ≡ new_byte_content (m ∷ ms ++ xs)
unfolding append_each
append_each-new m ms [] = rw (append-nil ms)
append_each-new m ms (x ∷ xs) = rw (append-new m ms x) (
    append_each-new m (ms ++ x ∷ []) xs
    ∙ ap (λ t. new_byte_content (m ∷ t)) (append_assoc ms (x ∷ []) xs))

last_field_snoc : (m : Bytes) (ms : List Bytes) (x : Bytes) → last_field m (ms ++ x ∷ []) ≡ x
unfolding last_field
last_field_snoc m [] x = refl
last_field_snoc m (y ∷ ms) x = last_field_snoc y ms x

middle_fields_snoc : (ms : List Bytes) (x : Bytes) → middle_fields (ms ++ x ∷ []) ≡ ms
unfolding middle_fields
middle_fields_snoc [] x = refl
middle_fields_snoc (y ∷ []) x = refl
middle_fields_snoc (y ∷ z ∷ ms) x = ap (◌∷◌ y) (middle_fields_snoc (z ∷ ms) x)

check_sign-tab :
    (c r : Bytes)
    → check_sign (c ++ tab ∷ r) ≡ check_fields (parse_content (c ++ tab ∷ r)) (c ++ tab ∷ r)
unfolding check_sign
check_sign-tab [] r = refl
check_sign-tab (b ∷ c) r = refl

sign-tab : (content name : Bytes) → sign content name ≡ content ++ tab ∷ escape_tab name
unfolding sign append_byte_content join
sign-tab content name = append_assoc content (tab ∷ []) (escape_tab name)

check_fields_snoc :
    (m : Bytes) (ms : List Bytes) (name content : Bytes)
    → check_fields (m ∷ ms ++ name ∷ []) content ≡ (name, new_byte_content (m ∷ ms))
unfolding check_fields
check_fields_snoc m ms name content =
    rw (last_field_snoc m ms name, middle_fields_snoc ms name, append_each-new m [] ms)

-- CheckSign reads off the name that Sign wrote, whatever bytes it holds, and leaves the fresh
-- content of the fields that stood before it: for every content with at least one field.
pub check_sign-sign :
    (content : Bytes) (m : Bytes) (ms : List Bytes) (name : Bytes)
    → Encodes content (m ∷ ms)
    → check_sign (sign content name) ≡ (name, new_byte_content (m ∷ ms))
check_sign-sign content m ms name e =
    let signed : parse_content (sign content name) ≡ m ∷ ms ++ name ∷ [] =
      unfold sign in (Encodes-append content (m ∷ ms) (name ∷ []) e).parsed in
    rw
      (
        sign-tab content name,
        check_sign-tab content (escape_tab name),
        ← sign-tab content name,
        signed,
      )
      (check_fields_snoc m ms name (sign content name))

-- The fields come back, in order and byte for byte, from a content that NewByteContent made and
-- AppendByteContent extended; the first list has a field, the second may be empty.
pub parse_content-append_byte_content :
    (m : Bytes) (ms xs : List Bytes)
    → parse_content (append_byte_content (new_byte_content (m ∷ ms)) xs) ≡ m ∷ ms ++ xs
parse_content-append_byte_content m ms xs = (Encodes-append _ (m ∷ ms) xs (Encodes-new m ms)).parsed

-- A launched message reaches the handlers as it was sent: reading the two signs gives the mode and
-- the sender's key, and the content with its fields, for all bytes in each of them.
pub read_signs-sign_and_launch :
    (m : Bytes) (ms : List Bytes) (key mode : Bytes)
    → read_signs (sign_and_launch (new_byte_content (m ∷ ms)) key mode)
      ≡ (mode, key, new_byte_content (m ∷ ms))
unfolding read_signs sign_and_launch
read_signs-sign_and_launch m ms key mode =
    let once : Encodes (sign (new_byte_content (m ∷ ms)) key) (m ∷ ms ++ key ∷ []) =
      unfold sign in Encodes-append _ (m ∷ ms) (key ∷ []) (Encodes-new m ms) in
    let inner : sign (new_byte_content (m ∷ ms)) key ≡ new_byte_content (m ∷ ms ++ key ∷ []) =
      unfold sign in append-new m ms key in
    rw (
      check_sign-sign (sign (new_byte_content (m ∷ ms)) key) m (ms ++ key ∷ []) mode once,
      ← inner,
      check_sign-sign (new_byte_content (m ∷ ms)) m ms key (Encodes-new m ms),
    )
