-- ===== src/Desktop/Install.antt =====
-- veil-desktop/scripts/install.py: the checks, the launcher file, installing and removing.
pub mod Safety
pub mod Refusals
pub mod Contents
pub mod Installed
pub mod Launcher
use project_veil.Prelude.{
  ℕ, ◌≡◌, Bool, true, false, not, ◌&&◌, ◌||◌, List, [], ◌∷◌, ◌++◌, Option, none, some, Bytes, Text,
  Result, ok, err, value_error, os_error, ◌>>=◌, ◌>>◌, guard, codes, Dict, lookup, text_eq,
  starts_with, contains, mem_text, any, ltb, ◌==◌, if◌then◌else◌, flat_map, drop, length,
}
use project_veil.Desktop.Files.{
  Node, Tree, Outcome, ◌then◌, join, is_symlink, exists, is_directory, is_file, read_bytes, unlink,
  rmtree, rmtree_part, parents, mkdir, Fault, atomic_write, Removal, not_stopped, at_unlink,
  at_rmtree,
}

-- What the system and Python's codecs supply: the text of a file, the bytes of a text, the names
-- that `mkstemp` makes, and the faults of the writes, of making directories and of the removal. A
-- path that is not valid UTF-8 has no bytes: encoding it raises `UnicodeEncodeError`.
pub record Host : Type 0 where
  pub decode : Bytes → Result Text
  pub encode : Text → Result Bytes
  pub fresh : Text → Text
  pub fault : Text → Fault
  pub denied : Text → Bool
  pub removal : Removal

-- `FILES`
abbrev pub installed_files : List Text
installed_files =
    codes "veil-desktop"
    ∷ codes "veil.svg"
    ∷ codes "README.md"
    ∷ codes "LICENSE"
    ∷ codes "THIRD_PARTY.md"
    ∷ codes "manifest.json"
    ∷ codes "install.py"
    ∷ []

abbrev pub marker : Text
marker = codes "X-Veil-Managed=true\n"

unfoldable pub safe_parts : Tree → List Text → Result (Unit {0})
safe_parts tree [] = ok tt
safe_parts tree (part ∷ parts) =
    guard (not (is_symlink tree part)) (value_error (codes "refusing symbolic link: " ++ part))
    >> safe_parts tree parts

unfoldable pub safe_path : Tree → Text → Result (Unit {0})
unfolding safe_parts
safe_path tree path =
    guard (starts_with path (codes "/") && not (any (λ c. ltb c 32) path))
      (value_error (codes "installation paths must be absolute and contain no control characters"))
    >> guard (not (contains path (codes "%")))
        (value_error (codes "desktop launchers require an installation path without %"))
    >> safe_parts tree (path ∷ parents path)

-- `s.replace(char, "\\" + char)`
unfoldable pub escape : ℕ → Text → Text
escape char = flat_map (λ c. if c == char then 0x5C ∷ c ∷ [] else c ∷ [])

-- The characters that are escaped in an Exec argument: the backslash, the quote, the backquote and
-- the dollar sign, in this order.
unfoldable pub exec_command : Text → Text
unfolding escape
exec_command path =
    let percent = flat_map (λ c. if c == 0x25 then 0x25 ∷ c ∷ [] else c ∷ []) path in
    let command = escape 0x24 (escape 0x60 (escape 0x22 (escape 0x5C percent))) in
    escape 0x5C (0x22 ∷ command ++ 0x22 ∷ [])

unfoldable pub desktop_entry : Text → Text
unfolding escape exec_command join
desktop_entry target =
    codes "[Desktop Entry]\nType=Application\nName=Veil\n"
    ++ codes "Comment=Manage your Veil proxy\nComment[zh_CN]=管理 Veil 代理\n"
    ++ codes "Exec="
    ++ exec_command (join target (codes "veil-desktop"))
    ++ codes "\nIcon="
    ++ escape 0x5C (join target (codes "veil.svg"))
    ++ codes "\nTerminal=false\n"
    ++ codes "Categories=Network;\nStartupWMClass=Veil-desktop\n"
    ++ marker

-- `target.iterdir()`: the names of the entries right below a directory.
unfoldable pub iterdir : Text → Tree → List Text
unfolding join
iterdir target [] = []
iterdir target ((p, _) ∷ tree) =
    let name = drop (length (join target [])) p in
    if starts_with p (join target []) && not (contains name (codes "/"))
    then name ∷ iterdir target tree
    else iterdir target tree

unfoldable pub check_children : Tree → Text → List Text → Result (Unit {0})
unfolding join
check_children tree target [] = ok tt
check_children tree target (name ∷ names) =
    let child = join target name in
    guard (mem_text name installed_files && not (is_symlink tree child) && is_file tree child)
      (value_error (codes "unexpected installation file: " ++ child))
    >> check_children tree target names

unfoldable pub check_target : Tree → Text → Result (Unit {0})
unfolding check_children iterdir
check_target tree target =
    if exists tree target
    then guard (is_directory tree target && is_file tree (join target (codes "manifest.json")))
        (value_error (codes "refusing unmanaged installation: " ++ target))
      >> check_children tree target (iterdir target tree)
    else ok tt

unfoldable pub check_launcher : Host → Tree → Text → Result (Unit {0})
check_launcher host tree launcher =
    if exists tree launcher
    then (do
      content ← read_bytes tree launcher
      text ← host.decode content
      guard (contains text marker)
          (value_error (codes "refusing unmanaged launcher: " ++ launcher)))
    else ok tt

-- What `manage` checks before it changes anything.
unfoldable pub checks : Host → Tree → Text → Text → Result (Unit {0})
unfolding safe_path check_target check_launcher
checks host tree target launcher =
    safe_path tree target
    >> safe_path tree launcher
    >> check_target tree target
    >> check_launcher host tree launcher

-- `contents = {name: (source / name).read_bytes() for name in FILES}`
unfoldable pub read_contents : Tree → Text → List Text → Result (Dict Bytes)
unfolding read_bytes
read_contents tree source [] = ok []
read_contents tree source (name ∷ names) = do
  content ← read_bytes tree (join source name)
  contents ← read_contents tree source names
  ok ((name, content) ∷ contents)

-- `0o755 if name == "veil-desktop" else 0o644`
unfoldable pub mode_of : Text → ℕ
mode_of name = if text_eq name (codes "veil-desktop") then 0x1ED else 0x1A4

unfoldable pub write_contents : Host → Text → Dict Bytes → Tree → Outcome (Unit {0})
unfolding atomic_write mode_of
write_contents host target [] tree = (ok tt, tree)
write_contents host target ((name, content) ∷ contents) tree =
    let path = join target name in
    atomic_write (host.fault path) (host.fresh path) path content (mode_of name) tree
    then write_contents host target contents

-- `atomic_write(launcher, desktop_entry(target).encode(), 0o644)`
unfoldable pub write_launcher : Host → Text → Text → Tree → Outcome (Unit {0})
unfolding atomic_write desktop_entry
write_launcher host target launcher tree = elim (host.encode (desktop_entry target)) [
  | err e ↦ (err e, tree)
  | ok entry ↦ atomic_write (host.fault launcher) (host.fresh launcher) launcher entry 0x1A4 tree
]

unfoldable pub install : Host → Text → Text → Text → Dict Bytes → Tree → Outcome (Unit {0})
unfolding write_contents mkdir write_launcher
install host target applications launcher contents tree =
    mkdir host.denied target tree
    then mkdir host.denied applications
    then write_contents host target contents
    then write_launcher host target launcher

unfoldable pub uninstall : Removal → Text → Text → Tree → Outcome (Unit {0})
unfolding rmtree rmtree_part unlink exists
uninstall at_unlink target launcher tree = (err os_error, tree)
uninstall not_stopped target launcher tree =
    let left = unlink launcher tree in
    (ok tt, if exists left target then rmtree target left else left)
uninstall (at_rmtree part) target launcher tree =
    let left = unlink launcher tree in
    if exists left target then (err os_error, rmtree_part part target left) else (ok tt, left)

pub data Action : Type 0 where
  to_install to_uninstall : Action

abbrev pub target_of : Text → Text
target_of prefix = join prefix (codes "lib/veil-desktop")

abbrev pub applications_of : Text → Text
applications_of prefix = join prefix (codes "share/applications")

abbrev pub launcher_of : Text → Text
launcher_of prefix = join (applications_of prefix) (codes "net.projectveil.Veil.desktop")

unfoldable pub perform : Host → Action → Text → Text → Tree → Outcome (Unit {0})
unfolding install uninstall read_contents
perform host to_uninstall source prefix tree =
    uninstall host.removal (target_of prefix) (launcher_of prefix) tree
perform host to_install source prefix tree = elim (read_contents tree source installed_files) [
  | err e ↦ (err e, tree)
  | ok contents ↦
      install host (target_of prefix) (applications_of prefix) (launcher_of prefix) contents tree
]

-- `prefix` is absolute and normal: what `os.path.abspath` gives.
unfoldable pub manage : Host → Action → Text → Text → Tree → Outcome (Unit {0})
unfolding perform checks
manage host action source prefix tree =
    elim (checks host tree (target_of prefix) (launcher_of prefix)) [
      | err e ↦ (err e, tree)
      | ok _ ↦ perform host action source prefix tree
    ]
