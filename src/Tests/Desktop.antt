-- ===== src/Tests/Desktop.antt =====
-- Runs and instances for the desktop installer.
use project_veil.Prelude.{
  Bytes, ◌≡◌, refl, ap, [], ◌∷◌, none, some, Text, value_error, os_error, ok, err, codes, lookup,
  text_eq, starts_with, contains, mem_text, map, insert, true, false, ◌||◌, ◌⊎◌,
}
use project_veil.Desktop.Files.{
  Tree, file, directory, join, no_fault, not_stopped, read_bytes, exists, under, is_symlink,
  is_file,
}
use mathlib.Core.List.{flat_map}
use project_veil.Desktop.Install.{
  exec_command, Host, to_install, to_uninstall, manage, target_of, launcher_of, marker,
  installed_files, mode_of, desktop_entry,
}
use project_veil.Desktop.Install.Safety.{manage_keeps, manage_missing, manage_removes}
use project_veil.Desktop.Install.Installed.{manage_installs}
use project_veil.Desktop.Install.Launcher.{read_exec, read_exec-exec_command}
use project_veil.Desktop.Install.Refusals.{manage_refuses}

abbrev linux : Host
linux = record {
  decode = λ content. ok content;
  encode = λ text. ok text;
  fresh = λ path. codes "/u/.veil-1";
  fault = λ path. no_fault;
  denied = λ path. false;
  removal = not_stopped;
}

abbrev prefix : Text
prefix = codes "/u"

abbrev profile : Text
profile = codes "/u/profile.json"

-- The seven input files in `/s`, and a saved profile.
abbrev inputs : Tree
inputs =
    (profile, file (codes "saved") 0x1A4)
    ∷ map (λ name. (join (codes "/s") name, file name 0x1A4)) installed_files

-- An installation with its launcher.
abbrev installation : Tree
installation =
    (codes "/u/lib/veil-desktop", directory)
    ∷ (codes "/u/lib/veil-desktop/manifest.json", file [] 0x1A4)
    ∷ (codes "/u/share/applications/net.projectveil.Veil.desktop", file marker 0x1A4)
    ∷ inputs

-- A directory of that name which is no installation.
abbrev foreign : Tree
foreign = (codes "/u/lib/veil-desktop", directory) ∷ inputs

install_run :
    lookup
      (codes "/u/lib/veil-desktop/LICENSE")
      (manage linux to_install (codes "/s") prefix inputs).1
    ≡ some (file (codes "LICENSE") 0x1A4)
unfolding manage lookup starts_with contains is_symlink insert
install_run = refl

uninstall_run : manage linux to_uninstall (codes "/s") prefix installation ≡ (ok tt, inputs)
unfolding manage lookup starts_with contains is_symlink is_file mem_text
uninstall_run = refl

abbrev refused : Text
refused = codes "refusing unmanaged installation: /u/lib/veil-desktop"

foreign_run : (manage linux to_uninstall (codes "/s") prefix foreign).0 ≡ err (value_error refused)
unfolding manage lookup starts_with contains is_symlink is_file
foreign_run = refl

profile_saved : lookup profile inputs ≡ some (file (codes "saved") 0x1A4)
unfolding lookup
profile_saved = refl

profile_made : (p : Text) → text_eq (linux.fresh p) profile ≡ false
unfolding text_eq
profile_made p = refl

profile-under : under (target_of prefix) profile ≡ false
unfolding under text_eq starts_with
profile-under = refl

profile-launcher_of : text_eq (launcher_of prefix) profile ≡ false
unfolding text_eq join
profile-launcher_of = refl

license_missing : read_bytes [] (join (codes "/s") (codes "LICENSE")) ≡ err os_error
unfolding read_bytes lookup
license_missing = refl

license_needed : mem_text (codes "LICENSE") installed_files ≡ true
unfolding mem_text
license_needed = refl

manage_keeps_example :
    lookup profile (manage linux to_install (codes "/s") prefix inputs).1
    ≡ some (file (codes "saved") 0x1A4)
manage_keeps_example =
    manage_keeps linux to_install (codes "/s") prefix inputs profile (file (codes "saved") 0x1A4)
      profile_made profile-under profile-launcher_of profile_saved

manage_missing_example : (manage linux to_install (codes "/s") prefix []).1 ≡ []
manage_missing_example =
    manage_missing linux (codes "/s") prefix (codes "LICENSE") [] os_error license_needed
      license_missing

uninstall_done : (manage linux to_uninstall (codes "/s") prefix installation).0 ≡ ok tt
uninstall_done = ap (λ o. o.0) uninstall_run

installation_there : exists installation (target_of prefix) ≡ true
unfolding exists lookup join
installation_there = refl

abbrev manifest : Text
manifest = codes "/u/lib/veil-desktop/manifest.json"

manifest_gone : (under (target_of prefix) manifest || text_eq manifest (launcher_of prefix)) ≡ true
unfolding under starts_with text_eq
manifest_gone = refl

manage_removes_example :
    lookup manifest (manage linux to_uninstall (codes "/s") prefix installation).1 ≡ none
manage_removes_example =
    manage_removes linux (codes "/s") prefix installation manifest uninstall_done installation_there
      manifest_gone

manage_refuses_example :
    ((manage linux to_uninstall (codes "/s") prefix foreign).1 ≡ foreign)
    ⊎ ((to_uninstall ≡ to_install)
        × (linux.encode (desktop_entry (target_of prefix)) ≡ err (value_error refused)))
manage_refuses_example =
    manage_refuses linux to_uninstall (codes "/s") prefix foreign refused foreign_run

license_made :
    (p : Text) → text_eq (linux.fresh p) (join (target_of prefix) (codes "LICENSE")) ≡ false
unfolding text_eq join
license_made p = refl

launcher_made : text_eq (linux.fresh (launcher_of prefix)) (launcher_of prefix) ≡ false
unfolding text_eq join
launcher_made = refl

install_done : (manage linux to_install (codes "/s") prefix inputs).0 ≡ ok tt
unfolding manage lookup starts_with contains is_symlink insert
install_done = refl

manage_installs_example :
    (content : Bytes) × (read_bytes inputs (join (codes "/s") (codes "LICENSE")) ≡ ok content)
    × (lookup
          (join (target_of prefix) (codes "LICENSE"))
          (manage linux to_install (codes "/s") prefix inputs).1
        ≡ some (file content (mode_of (codes "LICENSE"))))
    × (entry : Bytes) × (linux.encode (desktop_entry (target_of prefix)) ≡ ok entry)
    × (lookup (launcher_of prefix) (manage linux to_install (codes "/s") prefix inputs).1
        ≡ some (file entry 0x1A4))
manage_installs_example =
    manage_installs linux (codes "/s") prefix (codes "LICENSE") inputs license_made launcher_made
      license_needed install_done

-- A path with a space, a dollar sign, a quote, a backquote and a backslash.
abbrev odd_path : Text
odd_path = codes "/u/a $b \"c\" `d` \\e/veil-desktop"

read_exec-exec_command_example : read_exec (exec_command odd_path) ≡ some odd_path
read_exec-exec_command_example = read_exec-exec_command odd_path

exec_command_run : exec_command (codes "/$") ≡ codes "\"/\\\\$\""
unfolding exec_command flat_map
exec_command_run = refl
