-- ===== src/Ascii.antt =====
-- runtime_macro_ascii.c: the US keyboard map from ASCII bytes to ZMK's encoded keycodes. The usage
-- numbers and the encoding macros are those of the headers under tests/host/stubs/dt-bindings.
pub mod Alphabet
use zmk_module_runtime_macro.Base.{ℕ, ◌+◌, ◌*◌, ◌^◌, List, [], ◌∷◌, if◌then◌else◌, ltb, ◌==◌}
use zmk_module_runtime_macro.Config.{Result, ok, err, einval}

-- The keys that the map names (HID_USAGE_KEY_KEYBOARD_*).
pub data Key : Type 0 where
  kb_a kb_b kb_c kb_d kb_e kb_f kb_g kb_h kb_i kb_j kb_k kb_l kb_m kb_n kb_o kb_p kb_q kb_r : Key
  kb_s kb_t kb_u kb_v kb_w kb_x kb_y kb_z kb_1_and_exclamation kb_2_and_at kb_3_and_hash : Key
  kb_4_and_dollar kb_5_and_percent kb_6_and_caret kb_7_and_ampersand kb_8_and_asterisk : Key
  kb_9_and_left_parenthesis kb_0_and_right_parenthesis kb_return_enter kb_delete_backspace : Key
  kb_tab kb_spacebar kb_minus_and_underscore kb_equal_and_plus kb_left_bracket_and_left_brace : Key
  kb_right_bracket_and_right_brace kb_backslash_and_pipe kb_semicolon_and_colon : Key
  kb_apostrophe_and_quote kb_grave_accent_and_tilde kb_comma_and_less_than : Key
  kb_period_and_greater_than kb_slash_and_question_mark : Key

-- The usage number of a key.
unfoldable pub usage_id : Key → ℕ
usage_id kb_a = 0x04
usage_id kb_b = 0x05
usage_id kb_c = 0x06
usage_id kb_d = 0x07
usage_id kb_e = 0x08
usage_id kb_f = 0x09
usage_id kb_g = 0x0a
usage_id kb_h = 0x0b
usage_id kb_i = 0x0c
usage_id kb_j = 0x0d
usage_id kb_k = 0x0e
usage_id kb_l = 0x0f
usage_id kb_m = 0x10
usage_id kb_n = 0x11
usage_id kb_o = 0x12
usage_id kb_p = 0x13
usage_id kb_q = 0x14
usage_id kb_r = 0x15
usage_id kb_s = 0x16
usage_id kb_t = 0x17
usage_id kb_u = 0x18
usage_id kb_v = 0x19
usage_id kb_w = 0x1a
usage_id kb_x = 0x1b
usage_id kb_y = 0x1c
usage_id kb_z = 0x1d
usage_id kb_1_and_exclamation = 0x1e
usage_id kb_2_and_at = 0x1f
usage_id kb_3_and_hash = 0x20
usage_id kb_4_and_dollar = 0x21
usage_id kb_5_and_percent = 0x22
usage_id kb_6_and_caret = 0x23
usage_id kb_7_and_ampersand = 0x24
usage_id kb_8_and_asterisk = 0x25
usage_id kb_9_and_left_parenthesis = 0x26
usage_id kb_0_and_right_parenthesis = 0x27
usage_id kb_return_enter = 0x28
usage_id kb_delete_backspace = 0x2a
usage_id kb_tab = 0x2b
usage_id kb_spacebar = 0x2c
usage_id kb_minus_and_underscore = 0x2d
usage_id kb_equal_and_plus = 0x2e
usage_id kb_left_bracket_and_left_brace = 0x2f
usage_id kb_right_bracket_and_right_brace = 0x30
usage_id kb_backslash_and_pipe = 0x31
usage_id kb_semicolon_and_colon = 0x33
usage_id kb_apostrophe_and_quote = 0x34
usage_id kb_grave_accent_and_tilde = 0x35
usage_id kb_comma_and_less_than = 0x36
usage_id kb_period_and_greater_than = 0x37
usage_id kb_slash_and_question_mark = 0x38

-- RUNTIME_MACRO_KEY: `(page << 16) | id` on the keyboard page 7; the id is below 2 ^ 16.
unfoldable pub plain : Key → ℕ
unfolding usage_id
plain k = 7 * 2 ^ 16 + usage_id k

-- RUNTIME_MACRO_SHIFTED_KEY: `(MOD_LSFT << 24) | keycode`; the keycode is below 2 ^ 24.
unfoldable pub shifted : Key → ℕ
unfolding plain
shifted k = 2 * 2 ^ 24 + plain k

-- The designated initialisers of `runtime_macro_ascii_map`, in the source's order.
unfoldable pub entries : List (ℕ × ℕ)
unfolding plain shifted
entries =
    (8, plain kb_delete_backspace)
    ∷ (9, plain kb_tab)
    ∷ (10, plain kb_return_enter)
    ∷ (32, plain kb_spacebar)
    ∷ (33, shifted kb_1_and_exclamation)
    ∷ (34, shifted kb_apostrophe_and_quote)
    ∷ (35, shifted kb_3_and_hash)
    ∷ (36, shifted kb_4_and_dollar)
    ∷ (37, shifted kb_5_and_percent)
    ∷ (38, shifted kb_7_and_ampersand)
    ∷ (39, plain kb_apostrophe_and_quote)
    ∷ (40, shifted kb_9_and_left_parenthesis)
    ∷ (41, shifted kb_0_and_right_parenthesis)
    ∷ (42, shifted kb_8_and_asterisk)
    ∷ (43, shifted kb_equal_and_plus)
    ∷ (44, plain kb_comma_and_less_than)
    ∷ (45, plain kb_minus_and_underscore)
    ∷ (46, plain kb_period_and_greater_than)
    ∷ (47, plain kb_slash_and_question_mark)
    ∷ (58, shifted kb_semicolon_and_colon)
    ∷ (59, plain kb_semicolon_and_colon)
    ∷ (60, shifted kb_comma_and_less_than)
    ∷ (61, plain kb_equal_and_plus)
    ∷ (62, shifted kb_period_and_greater_than)
    ∷ (63, shifted kb_slash_and_question_mark)
    ∷ (64, shifted kb_2_and_at)
    ∷ (91, plain kb_left_bracket_and_left_brace)
    ∷ (92, plain kb_backslash_and_pipe)
    ∷ (93, plain kb_right_bracket_and_right_brace)
    ∷ (94, shifted kb_6_and_caret)
    ∷ (95, shifted kb_minus_and_underscore)
    ∷ (96, plain kb_grave_accent_and_tilde)
    ∷ (123, shifted kb_left_bracket_and_left_brace)
    ∷ (124, shifted kb_backslash_and_pipe)
    ∷ (125, shifted kb_right_bracket_and_right_brace)
    ∷ (126, shifted kb_grave_accent_and_tilde)
    ∷ (48, plain kb_0_and_right_parenthesis)
    ∷ (49, plain kb_1_and_exclamation)
    ∷ (50, plain kb_2_and_at)
    ∷ (51, plain kb_3_and_hash)
    ∷ (52, plain kb_4_and_dollar)
    ∷ (53, plain kb_5_and_percent)
    ∷ (54, plain kb_6_and_caret)
    ∷ (55, plain kb_7_and_ampersand)
    ∷ (56, plain kb_8_and_asterisk)
    ∷ (57, plain kb_9_and_left_parenthesis)
    ∷ (65, shifted kb_a)
    ∷ (66, shifted kb_b)
    ∷ (67, shifted kb_c)
    ∷ (68, shifted kb_d)
    ∷ (69, shifted kb_e)
    ∷ (70, shifted kb_f)
    ∷ (71, shifted kb_g)
    ∷ (72, shifted kb_h)
    ∷ (73, shifted kb_i)
    ∷ (74, shifted kb_j)
    ∷ (75, shifted kb_k)
    ∷ (76, shifted kb_l)
    ∷ (77, shifted kb_m)
    ∷ (78, shifted kb_n)
    ∷ (79, shifted kb_o)
    ∷ (80, shifted kb_p)
    ∷ (81, shifted kb_q)
    ∷ (82, shifted kb_r)
    ∷ (83, shifted kb_s)
    ∷ (84, shifted kb_t)
    ∷ (85, shifted kb_u)
    ∷ (86, shifted kb_v)
    ∷ (87, shifted kb_w)
    ∷ (88, shifted kb_x)
    ∷ (89, shifted kb_y)
    ∷ (90, shifted kb_z)
    ∷ (97, plain kb_a)
    ∷ (98, plain kb_b)
    ∷ (99, plain kb_c)
    ∷ (100, plain kb_d)
    ∷ (101, plain kb_e)
    ∷ (102, plain kb_f)
    ∷ (103, plain kb_g)
    ∷ (104, plain kb_h)
    ∷ (105, plain kb_i)
    ∷ (106, plain kb_j)
    ∷ (107, plain kb_k)
    ∷ (108, plain kb_l)
    ∷ (109, plain kb_m)
    ∷ (110, plain kb_n)
    ∷ (111, plain kb_o)
    ∷ (112, plain kb_p)
    ∷ (113, plain kb_q)
    ∷ (114, plain kb_r)
    ∷ (115, plain kb_s)
    ∷ (116, plain kb_t)
    ∷ (117, plain kb_u)
    ∷ (118, plain kb_v)
    ∷ (119, plain kb_w)
    ∷ (120, plain kb_x)
    ∷ (121, plain kb_y)
    ∷ (122, plain kb_z)
    ∷ []

-- The map's entry of a byte; one that no initialiser names is 0.
unfoldable pub entry : List (ℕ × ℕ) → ℕ → ℕ
entry [] b = 0
entry ((k, v) ∷ m) b = if k == b then v else entry m b

-- `zmk_runtime_macro_ascii_to_keycode`: the bound of the array first, then the zero entry.
unfoldable pub ascii_to_keycode : ℕ → Result ℕ
unfolding entries entry
ascii_to_keycode b =
    if ltb b 128
    then (if entry entries b == 0 then err einval else ok (entry entries b))
    else err einval
