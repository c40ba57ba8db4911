-- ===== src/Content/Tests.antt =====
-- Contents with escaped bytes.
use monosulfide.Prelude.{[], ◌∷◌, ◌≡◌}
use monosulfide.Content.{
  Bytes, new_byte_content, append_byte_content, parse_content, sign_and_launch, read_signs,
}
use monosulfide.Content.Sign.{parse_content-append_byte_content, read_signs-sign_and_launch}

-- A tab and a backslash inside the fields.
abbrev tabbed : Bytes
tabbed = 65 ∷ 9 ∷ 92 ∷ []

parse_content-append_byte_content_example :
    parse_content (append_byte_content (new_byte_content (tabbed ∷ [])) ([] ∷ tabbed ∷ []))
    ≡ tabbed ∷ [] ∷ tabbed ∷ []
parse_content-append_byte_content_example =
    parse_content-append_byte_content tabbed [] ([] ∷ tabbed ∷ [])

read_signs-sign_and_launch_example :
    read_signs (sign_and_launch (new_byte_content (tabbed ∷ [])) (7 ∷ []) (9 ∷ []))
    ≡ (9 ∷ [], 7 ∷ [], new_byte_content (tabbed ∷ []))
read_signs-sign_and_launch_example = read_signs-sign_and_launch tabbed [] (7 ∷ []) (9 ∷ [])
