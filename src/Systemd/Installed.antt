-- ===== src/Systemd/Installed.antt =====
-- src/systemd.rs: the unit that is installed, as a reader of its lines sees it.
use iroh_proxy.Common.{
  ℕ, ◌≡◌, refl, ap, ◌∙◌, Bool, true, false, not, ◌&&◌, Option, none, some, List, [], ◌∷◌, ◌++◌, map,
  Result, ok, err, arith, if◌then◌else◌, nat_eq, All, Bool-cases, ◌≢◌, inl, inr, subst, bail_if,
}
use iroh_proxy.Common.Dict.{Dict, lookup, lookup-insert, lookup-insert_self}
use iroh_proxy.Common.State.{continue, continue_lift, pure}
use iroh_proxy.Common.Text.{Text, text, text_Keyed, text_eq_iff}
use iroh_proxy.Systemd.{
  escape, quote_systemd_arg, join_args, render_exec_start, unlines, render_unit, user_service_path,
  some_key, is_absolute, join_current, before_exec_start, after_exec_start, UnitOs, UnitError,
  write_unit, create_dir_failed, write_failed, absolutize_path, absolutize_key_file,
  install_user_service, space,
}
use iroh_proxy.Systemd.Reading.{is_plain, ArePlain, read_args, read_args-join_args}

abbrev is_line : Text → Bool
is_line [] = true
is_line (c ∷ s) = not (nat_eq c 10) && is_line s

abbrev start_line : ℕ → List Text → List Text
start_line c [] = (c ∷ []) ∷ []
start_line c (line ∷ lines) = (c ∷ line) ∷ lines

unfoldable lines : Text → List Text
lines [] = []
lines (c ∷ s) = let rest = lines s in if nat_eq c 10 then [] ∷ rest else start_line c rest

-- The rest of a text that begins with the prefix.
abbrev strip_prefix : Text → Text → Option Text
strip_prefix [] s = some s
strip_prefix (c ∷ prefix) [] = none
strip_prefix (c ∷ prefix) (d ∷ s) = if nat_eq c d then strip_prefix prefix s else none

abbrev or_else : Option Text → Option Text → Option Text
or_else none o = o
or_else (some s) o = some s

abbrev first_setting : Text → List Text → Option Text
first_setting name [] = none
first_setting name (line ∷ lines) = or_else (strip_prefix name line) (first_setting name lines)

-- The value of the unit's ExecStart line.
unfoldable pub exec_start_of : Text → Option Text
unfolding lines
exec_start_of unit = first_setting (text "ExecStart=") (lines unit)

lines-line :
    (line rest : Text) → is_line line ≡ true → lines (line ++ (10 ∷ rest)) ≡ line ∷ lines rest
unfolding lines
lines-line [] rest h = refl
lines-line (c ∷ line) rest h = ground (arith, lines-line line rest)

lines-unlines : (ls : List Text) → All (λ line. is_line line ≡ true) ls → lines (unlines ls) ≡ ls
unfolding lines unlines
lines-unlines [] h = refl
lines-unlines (line ∷ ls) (p, h) =
    lines-line line (unlines ls) p ∙ ap (λ rest. line ∷ rest) (lines-unlines ls h)

is_line-append : (s t : Text) → is_line (s ++ t) ≡ (is_line s && is_line t)
is_line-append [] t = refl
is_line-append (c ∷ s) t = ground (arith, is_line-append s t)

is_line-escape : (s : Text) → is_plain s ≡ true → is_line (escape s) ≡ true
unfolding escape
is_line-escape [] h = refl
is_line-escape (c ∷ s) h = ground (arith, is_line-escape s)

is_line-quote_systemd_arg : (s : Text) → is_plain s ≡ true → is_line (quote_systemd_arg s) ≡ true
unfolding quote_systemd_arg
is_line-quote_systemd_arg s h =
    ground (arith, is_line-append (escape s) (34 ∷ []), is_line-escape s h)

is_line-join_args :
    (args : List Text) → ArePlain args → is_line (join_args (map quote_systemd_arg args)) ≡ true
unfolding join_args
is_line-join_args [] h = refl
is_line-join_args (arg ∷ []) (p, h) = is_line-quote_systemd_arg arg p
is_line-join_args (arg ∷ next ∷ args) (p, h) = ground (
  arith,
  is_line-append (quote_systemd_arg arg) (space ∷ join_args (map quote_systemd_arg (next ∷ args))),
  is_line-quote_systemd_arg arg p,
  is_line-join_args (next ∷ args) h,
)

abbrev key_arguments : Option Text → List Text → List Text
key_arguments none args = args
key_arguments (some key_file) args = text "--key-file" ∷ key_file ∷ args

-- The command line that starts the server.
abbrev pub server_arguments : Text → Option Text → Text → Bool → List Text
server_arguments exe_path key_file config_file mdns_enabled =
    exe_path
    ∷ key_arguments key_file (
        text "--config-file"
        ∷ config_file
        ∷ (if mdns_enabled then text "server" ∷ [] else text "--no-mdns" ∷ text "server" ∷ []))

abbrev pub is_plain_option : Option Text → Bool
is_plain_option none = true
is_plain_option (some s) = is_plain s

server_arguments-ArePlain :
    (exe_path : Text) (key_file : Option Text) (config_file : Text) (mdns_enabled : Bool)
    → is_plain exe_path ≡ true
    → is_plain_option key_file ≡ true
    → is_plain config_file ≡ true
    → ArePlain (server_arguments exe_path key_file config_file mdns_enabled)
server_arguments-ArePlain exe_path none config_file true e k c = (e, (refl, (c, (refl, tt))))
server_arguments-ArePlain exe_path none config_file false e k c =
    (e, (refl, (c, (refl, (refl, tt)))))
server_arguments-ArePlain exe_path (some key) config_file true e k c =
    (e, (refl, (k, (refl, (c, (refl, tt))))))
server_arguments-ArePlain exe_path (some key) config_file false e k c =
    (e, (refl, (k, (refl, (c, (refl, (refl, tt)))))))

render_exec_start_lem :
    (exe_path : Text) (key_file : Option Text) (config_file : Text) (mdns_enabled : Bool)
    → render_exec_start exe_path key_file config_file mdns_enabled
      ≡ join_args
          (map quote_systemd_arg (server_arguments exe_path key_file config_file mdns_enabled))
unfolding render_exec_start
render_exec_start_lem exe_path none config_file true = refl
render_exec_start_lem exe_path none config_file false = refl
render_exec_start_lem exe_path (some key) config_file true = refl
render_exec_start_lem exe_path (some key) config_file false = refl

-- The unit's ExecStart line reads as a command line.
abbrev pub Runs : Text → List Text → Type 0
Runs unit args = (line : Text) × (exec_start_of unit ≡ some line) × (read_args line ≡ some args)

exec_start_of-unlines :
    (line : Text)
    → is_line line ≡ true
    → exec_start_of
        (unlines (before_exec_start ++ ((text "ExecStart=" ++ line) ∷ after_exec_start)))
      ≡ some line
unfolding exec_start_of
exec_start_of-unlines line h = ap (first_setting (text "ExecStart=")) (
    lines-unlines (before_exec_start ++ ((text "ExecStart=" ++ line) ∷ after_exec_start)) (
      refl,
      (
        refl,
        (refl, (refl, (refl, (refl, (refl, (h, (refl, (refl, (refl, (refl, (refl, tt))))))))))),
      ),
    ))

render_unit-Runs :
    (exe_path : Text) (key_file : Option Text) (config_file : Text) (mdns_enabled : Bool)
    → is_plain exe_path ≡ true
    → is_plain_option key_file ≡ true
    → is_plain config_file ≡ true
    → Runs
        (render_unit exe_path key_file config_file mdns_enabled)
        (server_arguments exe_path key_file config_file mdns_enabled)
unfolding render_unit
render_unit-Runs exe_path key_file config_file mdns_enabled e k c =
    let plain = server_arguments-ArePlain exe_path key_file config_file mdns_enabled e k c in
    let args = server_arguments exe_path key_file config_file mdns_enabled in
    rw (render_exec_start_lem exe_path key_file config_file mdns_enabled) (
      join_args (map quote_systemd_arg args),
      exec_start_of-unlines _ (is_line-join_args args plain),
      read_args-join_args args plain,
    )

abbrev is_absolute_option : Option Text → Bool
is_absolute_option none = true
is_absolute_option (some s) = is_absolute s

is_plain-append : (s t : Text) → is_plain (s ++ t) ≡ (is_plain s && is_plain t)
is_plain-append [] t = refl
is_plain-append (c ∷ s) t = ground (arith, is_plain-append s t)

is_absolute-append : (s t : Text) → is_absolute s ≡ true → is_absolute (s ++ t) ≡ true
is_absolute-append [] t h = ground arith
is_absolute-append (c ∷ s) t h = h

-- Where a call reads its directories: absolute, and without special characters.
pub record IsPlainOs (os : UnitOs) : Type 0 where
  pub plain : is_plain_option os.current_dir ≡ true
  pub absolute : is_absolute_option os.current_dir ≡ true

-- A path that was made absolute.
abbrev pub IsFullPath : Text → Type 0
IsFullPath path = (is_plain path ≡ true) × (is_absolute path ≡ true)

abbrev pub IsFullOption : Option Text → Type 0
IsFullOption none = Unit
IsFullOption (some path) = IsFullPath path

abbrev FullKeyOrError : Result UnitError (Option Text) → Type 0
FullKeyOrError (ok path) = IsFullOption path
FullKeyOrError (err e) = Unit

abbrev FullOrError : Result UnitError Text → Type 0
FullOrError (ok path) = IsFullPath path
FullOrError (err e) = Unit

module _ (os : UnitOs) (dirs : IsPlainOs os) where
  join_current-FullOrError :
      (dir : Option Text) (path : Text)
      → is_plain_option dir ≡ true
      → is_absolute_option dir ≡ true
      → is_plain path ≡ true
      → FullOrError (join_current dir path)
  join_current-FullOrError none path p a h = tt
  join_current-FullOrError (some dir) path p a h =
      (ground (arith, is_plain-append dir (47 ∷ path)), is_absolute-append dir (47 ∷ path) a)

  absolutize_path-FullOrError :
      (path : Text) → is_plain path ≡ true → FullOrError (absolutize_path os path)
  unfolding absolutize_path
  absolutize_path-FullOrError path h = elim (Bool-cases (is_absolute path)) [
    | inl e ↦ rw e (h, e)
    | inr e ↦ rw e (join_current-FullOrError os.current_dir path dirs.plain dirs.absolute h)
  ]

  absolutize_key_file-FullKeyOrError :
      (key_file : Option Text)
      → is_plain_option key_file ≡ true
      → FullKeyOrError (absolutize_key_file os key_file)
  absolutize_key_file-FullKeyOrError none h = tt
  absolutize_key_file-FullKeyOrError (some path) h = go _ (absolutize_path-FullOrError path h)
    where
      go : (r : Result UnitError Text) → FullOrError r → FullKeyOrError (some_key r)
      go (ok path) h = h
      go (err e) h = tt

-- What an installation leaves on disk.
pub record Installed (os : UnitOs) (exe_path : Text) (given_key : Option Text) (given_config : Text)
    (mdns_enabled : Bool) (files : Dict Text Text) (path : Text) (files' : Dict Text Text)
    : Type 0 where
  pub key_file : Option Text
  pub config_file : Text
  pub unit : Text
  pub at_path : user_service_path os ≡ ok path
  pub key_path : absolutize_key_file os given_key ≡ ok key_file
  pub config_path : absolutize_path os given_config ≡ ok config_file
  pub full_key : IsFullOption key_file
  pub full_config : IsFullPath config_file
  pub written : lookup path files' ≡ some unit
  pub runs : Runs unit (server_arguments exe_path key_file config_file mdns_enabled)
  pub others : (other : Text) → other ≢ path → lookup other files' ≡ lookup other files

-- An error other than a failing write leaves the files as they were.
abbrev pub Installs :
    (os : UnitOs) (exe_path : Text) (given_key : Option Text) (given_config : Text)
    (mdns_enabled : Bool) (files : Dict Text Text)
    → Result UnitError Text × Dict Text Text
    → Type 0
Installs os exe_path given_key given_config mdns_enabled files (ok path, files') =
    Installed os exe_path given_key given_config mdns_enabled files path files'
Installs os exe_path given_key given_config mdns_enabled files (err e, files') =
    e ≢ write_failed → files' ≡ files

module _ (os : UnitOs) (exe_path : Text) (given_key : Option Text) (given_config : Text)
    (mdns_enabled : Bool) (files : Dict Text Text) where
  write_unit-Installs :
      (path : Text) (key_file : Option Text) (config_file : Text) (fails : Option ℕ)
      → user_service_path os ≡ ok path
      → absolutize_key_file os given_key ≡ ok key_file
      → absolutize_path os given_config ≡ ok config_file
      → is_plain exe_path ≡ true
      → IsFullOption key_file
      → IsFullPath config_file
      → let unit = render_unit exe_path key_file config_file mdns_enabled in
        Installs os exe_path given_key given_config mdns_enabled files
          (continue (write_unit os path unit fails files) λ _. pure path)
  write_unit-Installs path key_file config_file none at hk hc e k c = record {
    key_file = key_file;
    config_file = config_file;
    unit = render_unit exe_path key_file config_file mdns_enabled;
    at_path = at;
    key_path = hk;
    config_path = hc;
    full_key = k;
    full_config = c;
    written = lookup-insert_self path _ files;
    runs = render_unit-Runs exe_path key_file config_file mdns_enabled e (plain_key key_file k) c.0;
    others = λ other new. ground (
      arith,
      lookup-insert path other (render_unit exe_path key_file config_file mdns_enabled) files,
      text_eq_iff path other,
    );
  }
    where
      plain_key : (key : Option Text) → IsFullOption key → is_plain_option key ≡ true
      plain_key none h = refl
      plain_key (some key) h = h.0
  write_unit-Installs path key_file config_file (some n) at hk hc e k c =
      λ other. absurd (other refl)

  -- If an installation succeeds, the unit file's ExecStart line reads as the executable, the key
  -- file if one was given, the configuration file, `--no-mdns` unless mDNS is enabled, and
  -- `server`; the paths of the two files are the given ones made absolute; every other file is as
  -- before. If it fails other than at the write, no file changes. The paths and the current
  -- directory have no percent sign, dollar sign or newline, and the current directory is absolute.
  pub install_user_service-Installs :
      IsPlainOs os
      → is_plain exe_path ≡ true
      → is_plain_option given_key ≡ true
      → is_plain given_config ≡ true
      → Installs os exe_path given_key given_config mdns_enabled files
          (install_user_service os exe_path given_key given_config mdns_enabled files)
  unfolding install_user_service
  install_user_service-Installs dirs e k c =
      continue_lift outcome (user_service_path os) files _ (λ f h _. refl)
        λ path at.
          continue_lift outcome (bail_if os.create_dir_fails create_dir_failed) files _
            (λ f h _. refl)
            λ _ h.
              continue_lift outcome (absolutize_key_file os given_key) files _ (λ f h _. refl)
                λ key hk.
                  continue_lift outcome (absolutize_path os given_config) files _ (λ f h _. refl)
                    λ config hc.
                      write_unit-Installs path key config os.write_fails at hk hc e
                        (subst FullKeyOrError hk
                          (absolutize_key_file-FullKeyOrError os dirs given_key k))
                        (subst FullOrError hc (absolutize_path-FullOrError os dirs given_config c))
    where
      outcome : Result UnitError Text × Dict Text Text → Type 0
      outcome = Installs os exe_path given_key given_config mdns_enabled files
