-- ===== src/Systemd.antt =====
-- src/systemd.rs: the user unit that starts the server. A path is the text of its characters; lossy
-- conversions of a path that is not a text are not met.
use iroh_proxy.Common.{
  ℕ, ◌≡◌, Bool, true, false, ◌||◌, Option, none, some, List, [], ◌∷◌, ◌++◌, map, Result, ok, err,
  if◌then◌else◌, nat_eq, bail_if, take,
}
use iroh_proxy.Common.Dict.{Dict, insert}
use iroh_proxy.Common.State.{Action, pure, fail, lift, ◌>>=◌, ◌>>◌}
use iroh_proxy.Common.Text.{Text, text, text_Keyed}
pub mod Reading
pub mod Installed
mod Tests

abbrev pub backslash : ℕ
backslash = 92

abbrev pub double_quote : ℕ
double_quote = 34

abbrev pub space : ℕ
space = 32

abbrev pub needs_escape : ℕ → Bool
needs_escape c = nat_eq c backslash || nat_eq c double_quote

-- The loop over the characters.
unfoldable pub escape : Text → Text
escape [] = []
escape (c ∷ s) = let rest = escape s in if needs_escape c then backslash ∷ c ∷ rest else c ∷ rest

unfoldable pub quote_systemd_arg : Text → Text
unfolding escape
quote_systemd_arg raw = double_quote ∷ (escape raw ++ (double_quote ∷ []))

-- `args.join(" ")`.
unfoldable pub join_args : List Text → Text
join_args [] = []
join_args (arg ∷ []) = arg
join_args (arg ∷ next ∷ args) = arg ++ (space ∷ join_args (next ∷ args))

abbrev pub key_file_args : Option Text → List Text
key_file_args none = []
key_file_args (some key_file) =
    quote_systemd_arg (text "--key-file") ∷ quote_systemd_arg key_file ∷ []

abbrev pub mdns_args : Bool → List Text
mdns_args mdns_enabled = if mdns_enabled then [] else quote_systemd_arg (text "--no-mdns") ∷ []

unfoldable pub render_exec_start : Text → Option Text → Text → Bool → Text
unfolding quote_systemd_arg join_args
render_exec_start exe_path key_file config_file mdns_enabled = join_args (
    quote_systemd_arg exe_path
    ∷ (key_file_args key_file
        ++ (quote_systemd_arg (text "--config-file")
            ∷ quote_systemd_arg config_file
            ∷ (mdns_args mdns_enabled ++ (quote_systemd_arg (text "server") ∷ [])))))

abbrev pub newline : Text
newline = 10 ∷ []

abbrev pub before_exec_start : List Text
before_exec_start =
    text "[Unit]"
    ∷ text "Description=iroh-proxy server"
    ∷ text "After=network-online.target"
    ∷ text "Wants=network-online.target"
    ∷ []
    ∷ text "[Service]"
    ∷ text "Type=simple"
    ∷ []

abbrev pub after_exec_start : List Text
after_exec_start =
    text "Restart=on-failure"
    ∷ text "RestartSec=2"
    ∷ []
    ∷ text "[Install]"
    ∷ text "WantedBy=default.target"
    ∷ []

-- Each line ends with a newline.
unfoldable pub unlines : List Text → Text
unlines [] = []
unlines (line ∷ lines) = line ++ (10 ∷ unlines lines)

unfoldable pub render_unit : Text → Option Text → Text → Bool → Text
unfolding render_exec_start unlines
render_unit exe_path key_file config_file mdns_enabled = unlines (
    before_exec_start
    ++ ((text "ExecStart=" ++ render_exec_start exe_path key_file config_file mdns_enabled)
        ∷ after_exec_start))

-- What the operating system answers. A failing write may have written the first characters.
pub record UnitOs : Type 0 where
  pub config_dir : Option Text
  pub current_dir : Option Text
  pub create_dir_fails : Bool
  pub write_fails : Option ℕ

pub data UnitError : Type 0 where
  no_home_directory no_current_directory create_dir_failed write_failed : UnitError

abbrev pub UnitIo : Type 0 → Type 0
UnitIo A = Action (Dict Text Text) UnitError A

abbrev pub is_absolute : Text → Bool
is_absolute [] = false
is_absolute (c ∷ path) = nat_eq c 47

-- `Path::join` of a relative path.
abbrev pub join : Text → Text → Text
join dir path = dir ++ (47 ∷ path)

abbrev pub join_current : Option Text → Text → Result UnitError Text
join_current none path = err no_current_directory
join_current (some dir) path = ok (join dir path)

abbrev pub some_key : Result UnitError Text → Result UnitError (Option Text)
some_key (ok key_file) = ok (some key_file)
some_key (err e) = err e

module _ (os : UnitOs) where
  unfoldable pub absolutize_path : Text → Result UnitError Text
  absolutize_path path = if is_absolute path then ok path else join_current os.current_dir path

  abbrev pub unit_path : Option Text → Result UnitError Text
  unit_path none = err no_home_directory
  unit_path (some dir) = ok (join dir (text "systemd/user/iroh-proxy.service"))

  unfoldable pub user_service_path : Result UnitError Text
  user_service_path = unit_path os.config_dir

  -- `key_file.map(absolutize_path).transpose()`.
  abbrev pub absolutize_key_file : Option Text → Result UnitError (Option Text)
  absolutize_key_file none = ok none
  absolutize_key_file (some path) = some_key (absolutize_path path)

  abbrev pub write_unit : Text → Text → Option ℕ → UnitIo (Unit {0})
  write_unit path unit none files = pure tt (insert path unit files)
  write_unit path unit (some k) files = fail write_failed (insert path (take k unit) files)

  unfoldable pub install_user_service : Text → Option Text → Text → Bool → UnitIo Text
  unfolding absolutize_path user_service_path render_unit
  install_user_service exe_path key_file config_file mdns_enabled = do
    service_path ← lift user_service_path
    lift (bail_if os.create_dir_fails create_dir_failed)
    key_file ← lift (absolutize_key_file key_file)
    config_file ← lift (absolutize_path config_file)
    write_unit service_path (render_unit exe_path key_file config_file mdns_enabled) os.write_fails
    pure service_path
