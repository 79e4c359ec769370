-- ===== src/Examples/Texts.antt =====
-- A desktop entry, a QML file and maps of settings.
use mcs_qs.DesktopEntry.{Parser, no_data}
use mcs_qs.DesktopEntry.Exec.{parse_exec_string}
use mcs_qs.DesktopEntry.Locales.{Locale}
use mcs_qs.DesktopEntry.Quoting.{print_exec, parse_exec_string-print_exec}
use mcs_qs.Log.{same_bytes}
use mcs_qs.Network.Settings.{group, or_else, none_if, merge_settings_maps, remove_settings_in_map}
use mcs_qs.Network.Settings.Groups.{merge_settings_maps_lem, remove_settings_in_map_lem}
use mcs_qs.Prelude.{ℕ, ◌≡◌, refl, false, inl, List, [], ◌∷◌}
use mcs_qs.Rules.{starts_with}
use mcs_qs.Scanner.{ScanEnv, to_bool, close_scopes, scan_lines, no_scan, scan_qml_file}
use mcs_qs.Scanner.Masks.{all_scopes, masked_text, nested}
use mcs_qs.Scanner.Nesting.{read_text, scan_qml_file_lem}
use mcs_qs.Texts.{codes, lookup}

-- A program, and an argument with a space, a quote, a backslash and a percent sign.
exec_example :
    parse_exec_string (print_exec (codes "sh" ∷ (97 ∷ 32 ∷ 34 ∷ 92 ∷ 37 ∷ []) ∷ []))
    ≡ codes "sh" ∷ (97 ∷ 32 ∷ 34 ∷ 92 ∷ 37 ∷ []) ∷ []
exec_example =
    parse_exec_string-print_exec (codes "sh" ∷ (97 ∷ 32 ∷ 34 ∷ 92 ∷ 37 ∷ []) ∷ [])
      (refl, (refl, tt))

abbrev german : Locale
german = record { language = codes "de"; territory = codes "AT"; modifier = [] }

abbrev parser : Parser
parser = record {
  parsed = no_data (codes "files");
  group_name = codes "Desktop Entry";
  entries = [];
  action_order = [];
  pending_actions = [];
}

abbrev lines : List (List ℕ)
lines = codes "Name=Files" ∷ codes "Name[fr]=Fichiers" ∷ codes "Name[de]=Dateien" ∷ []

-- Every condition is compared with the text `yes`.
abbrev env : ScanEnv
env = record {
  trimmed = λ line. line;
  evaluate = λ expr. to_bool (same_bytes expr (codes "yes"));
  file_path = λ name. name;
}

abbrev file : List (List ℕ)
file =
    codes "Item {"
    ∷ codes "//@ if no"
    ∷ codes "a"
    ∷ codes "//@ if yes"
    ∷ codes "b"
    ∷ codes "//@ endif"
    ∷ codes "//@ endif"
    ∷ codes "}"
    ∷ []

scan_example :
    (read_text env (scan_qml_file env false false file).1 file ≡ masked_text env [] file)
    × ((scan_qml_file env false false file).0
        ≡ close_scopes env
            (all_scopes (nested env [] file))
            (scan_lines env file (no_scan env false false)))
scan_example = scan_qml_file_lem env false false file (
    unfold starts_with in
    (
      inl refl,
      (inl refl, (inl refl, (inl refl, (inl refl, (inl refl, (inl refl, (inl refl, tt))))))),
    ))

abbrev target : List (List ℕ × List (List ℕ × ℕ))
target = (codes "ipv4", (codes "method", 1) ∷ (codes "dns", 2) ∷ []) ∷ []

abbrev source : List (List ℕ × List (List ℕ × ℕ))
source = (codes "ipv4", (codes "dns", 3) ∷ []) ∷ (codes "wifi", (codes "ssid", 4) ∷ []) ∷ []

merge_example :
    lookup (codes "dns") (group (codes "ipv4") (merge_settings_maps target source))
    ≡ or_else
        (lookup (codes "dns") (group (codes "ipv4") source))
        (lookup (codes "dns") (group (codes "ipv4") target))
merge_example =
    merge_settings_maps_lem (codes "ipv4") (codes "dns") target source
      (unfold lookup same_bytes in (refl, (refl, tt))) (unfold lookup same_bytes in (refl, tt))

remove_example :
    lookup (codes "dns") (group (codes "ipv4") (remove_settings_in_map target source))
    ≡ none_if
        (lookup (codes "dns") (group (codes "ipv4") source))
        (lookup (codes "dns") (group (codes "ipv4") target))
remove_example =
    remove_settings_in_map_lem (codes "ipv4") (codes "dns") target source
      (unfold lookup same_bytes in (refl, (refl, tt)))
