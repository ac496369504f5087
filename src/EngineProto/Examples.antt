-- ===== src/EngineProto/Examples.antt =====
-- A line that is not valid UTF-8, in a frame and out of it.
use stugan.Base.{false, ◌≡◌, refl, some, none, [], ◌∷◌, Bytes, if◌then◌else◌}
use stugan.Go.Utf8.{valid_string}
use stugan.EngineProto.{blank, set_line, text, text-set_line}

abbrev latin_1 : Bytes
latin_1 = 0x63 ∷ (0x61 ∷ (0x66 ∷ (0xe9 ∷ [])))

latin_1_is_not_utf_8 : valid_string latin_1 ≡ false
unfolding valid_string
latin_1_is_not_utf_8 = refl

text-set_line_example :
    (text (set_line blank latin_1) ≡ latin_1)
    × ((set_line blank latin_1).bin ≡ (if valid_string latin_1 then none else some latin_1))
text-set_line_example = text-set_line blank latin_1
