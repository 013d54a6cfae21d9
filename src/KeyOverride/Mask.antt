-- ===== src/KeyOverride/Mask.antt =====
-- parser/src/cfg/key_override.rs, `mask_for_key`: the modifiers as the bits of a `u8`.
use kanata.Base.{ℕ, Bool, ◌||◌, Option, none, some, ◌==◌, if◌then◌else◌}

-- keys/mod.rs.
abbrev pub key_leftctrl : ℕ
key_leftctrl = 29

abbrev pub key_leftshift : ℕ
key_leftshift = 42

abbrev pub key_rightshift : ℕ
key_rightshift = 54

abbrev pub key_leftalt : ℕ
key_leftalt = 56

abbrev pub key_rightctrl : ℕ
key_rightctrl = 97

abbrev pub key_rightalt : ℕ
key_rightalt = 100

abbrev pub key_leftmeta : ℕ
key_leftmeta = 125

abbrev pub key_rightmeta : ℕ
key_rightmeta = 126

unfoldable pub is_modifier : ℕ → Bool
is_modifier osc =
    osc == key_leftshift
    || osc == key_rightshift
    || osc == key_leftmeta
    || osc == key_rightmeta
    || osc == key_leftctrl
    || osc == key_rightctrl
    || osc == key_leftalt
    || osc == key_rightalt

unfoldable pub mask_for_key : ℕ → Option ℕ
mask_for_key osc =
    if osc == key_leftctrl
    then some 1
    else if osc == key_leftshift
    then some 2
    else if osc == key_leftalt
    then some 4
    else if osc == key_leftmeta
    then some 8
    else if osc == key_rightctrl
    then some 16
    else if osc == key_rightshift
    then some 32
    else if osc == key_rightalt
    then some 64
    else if osc == key_rightmeta
    then some 128
    else none
