-- ===== src/Tui/Labels.antt =====
-- src/tui.rs: the icon mode, the labels and the truncation of lines. The environment is a function
-- that gives the variables that are set to valid Unicode.
use iroh_proxy.Common.{
  ℕ, zero, suc, ◌+◌, ◌-◌, Bool, true, false, ◌&&◌, ◌||◌, Option, none, some, List, [], ◌∷◌, ◌++◌,
  map, length, take, if◌then◌else◌, leb, nat_eq,
}
use iroh_proxy.Common.Text.{Text, text, text_eq, trim}
use iroh_proxy.Common.Decimal.{decimal}
use iroh_proxy.Daemon.Service.{Status}

pub data IconMode : Type 0 where
  enabled disabled : IconMode

unfoldable pub to_ascii_lowercase : Text → Text
to_ascii_lowercase s = map (λ c. if leb b'A' c && leb c b'Z' then c + 32 else c) s

unfoldable pub to_ascii_uppercase : Text → Text
to_ascii_uppercase s = map (λ c. if leb b'a' c && leb c b'z' then c - 32 else c) s

-- `str::contains`.
unfoldable pub starts_with : Text → Text → Bool
starts_with [] s = true
starts_with (c ∷ pattern) [] = false
starts_with (c ∷ pattern) (d ∷ s) = nat_eq c d && starts_with pattern s

unfoldable pub contains : Text → Text → Bool
unfolding starts_with
contains pattern [] = starts_with pattern []
contains pattern (d ∷ s) = starts_with pattern (d ∷ s) || contains pattern s

abbrev one_of : Text → List Text → Bool
one_of s [] = false
one_of s (word ∷ words) = text_eq s word || one_of s words

unfoldable pub parse_use_nerd_fonts_value : Text → Option Bool
unfolding to_ascii_lowercase
parse_use_nerd_fonts_value value =
    let lower = to_ascii_lowercase (trim value) in
    if one_of lower (text "1" ∷ text "true" ∷ text "yes" ∷ text "on" ∷ [])
    then some true
    else if one_of lower (text "0" ∷ text "false" ∷ text "no" ∷ text "off" ∷ [])
    then some false
    else none

unfoldable pub locale_has_utf8 : Option Text → Bool
unfolding to_ascii_uppercase contains
locale_has_utf8 none = false
locale_has_utf8 (some value) =
    let upper = to_ascii_uppercase value in
    contains (text "UTF-8") upper || contains (text "UTF8") upper

abbrev pub is_dumb : Option Text → Bool
is_dumb none = false
is_dumb (some term) = text_eq (to_ascii_lowercase term) (text "dumb")

unfoldable pub detect_icon_mode_auto : (Text → Option Text) → IconMode
unfolding locale_has_utf8 to_ascii_lowercase
detect_icon_mode_auto env =
    if is_dumb (env (text "TERM"))
    then disabled
    else if locale_has_utf8 (env (text "LC_ALL"))
        || (locale_has_utf8 (env (text "LC_CTYPE")) || locale_has_utf8 (env (text "LANG")))
    then enabled
    else disabled

abbrev pub parse_use_nerd_fonts_env : Option Text → Option Bool
parse_use_nerd_fonts_env none = none
parse_use_nerd_fonts_env (some value) = parse_use_nerd_fonts_value value

abbrev chosen_icon_mode : Option Bool → IconMode → IconMode
chosen_icon_mode (some true) detected = enabled
chosen_icon_mode (some false) detected = disabled
chosen_icon_mode none detected = detected

unfoldable pub resolve_icon_mode : (Text → Option Text) → IconMode
unfolding parse_use_nerd_fonts_value detect_icon_mode_auto
resolve_icon_mode env =
    chosen_icon_mode (parse_use_nerd_fonts_env (env (text "USE_NERD_FONTS")))
      (detect_icon_mode_auto env)

unfoldable pub services_label : IconMode → Text
services_label enabled = 61573 ∷ text " Services"
services_label disabled = text "Services"

unfoldable pub forwards_label : IconMode → Text
forwards_label enabled = 61540 ∷ text " Forwards"
forwards_label disabled = text "Forwards"

unfoldable pub connections_label : IconMode → Bool → Text
connections_label enabled true = 61633 ∷ text " Conns"
connections_label enabled false = 61633 ∷ text " Active Connections"
connections_label disabled true = text "Conns"
connections_label disabled false = text "Active Connections"

unfoldable pub status_running_label : IconMode → Text
status_running_label enabled = 61528 ∷ text " running"
status_running_label disabled = text "running"

unfoldable pub status_disconnected_label : IconMode → Text
status_disconnected_label enabled = 61546 ∷ text " disconnected"
status_disconnected_label disabled = text "disconnected"

unfoldable pub status_up_label : IconMode → Text
status_up_label enabled = 61528 ∷ text " up"
status_up_label disabled = text "up"

unfoldable pub status_down_label : IconMode → Text
status_down_label enabled = 61546 ∷ text " down"
status_down_label disabled = text "down"

unfoldable pub endpoint_label : IconMode → Bool → Text
endpoint_label enabled true = 985695 ∷ []
endpoint_label enabled false = 985695 ∷ text " endpoint"
endpoint_label disabled true = text "ep"
endpoint_label disabled false = text "endpoint"

unfoldable pub compact_counters_label : IconMode → Status → Text
compact_counters_label enabled status =
    (text "  " ++ (61573 ∷ text ":"))
    ++ (decimal status.served
        ++ ((text "  " ++ (61540 ∷ text ":"))
            ++ (decimal status.forwards
                ++ ((text "  " ++ (61633 ∷ text ":")) ++ decimal status.connections))))
compact_counters_label disabled status =
    (text " sv:")
    ++ (decimal status.served
        ++ ((text " fw:")
            ++ (decimal status.forwards ++ ((text " cn:") ++ decimal status.connections))))

unfoldable pub dots : ℕ → Text
dots zero = []
dots (suc n) = b'.' ∷ dots n

unfoldable pub truncate_with_ellipsis : Text → ℕ → Text
unfolding dots
truncate_with_ellipsis value max_chars =
    if leb (length value) max_chars
    then value
    else if nat_eq max_chars 0
    then []
    else if leb max_chars 3
    then dots max_chars
    else take (max_chars - 3) value ++ text "..."
