-- ===== src/Release/Payload.antt =====
-- `payload` of .github/scripts/release.py.
use project_veil.Prelude.{List, [], ◌∷◌, ◌++◌, map, Text, codes, sort_text}

-- `f"veil-{version}-{target}-{arch}.{suffix}"`
abbrev pub archive_name : Text → Text → Text → Text → Text
archive_name version target arch suffix =
    codes "veil-"
    ++ (version ++ (codes "-" ++ (target ++ (codes "-" ++ (arch ++ (codes "." ++ suffix))))))

-- The list before it is sorted.
unfoldable pub files : Text → List Text
files version =
    archive_name version (codes "linux") (codes "amd64") (codes "tar.gz")
    ∷ archive_name version (codes "linux") (codes "arm64") (codes "tar.gz")
    ∷ archive_name version (codes "linux") (codes "armv7") (codes "tar.gz")
    ∷ archive_name version (codes "windows") (codes "amd64") (codes "zip")
    ∷ archive_name version (codes "windows") (codes "arm64") (codes "zip")
    ∷ (codes "veil-desktop-" ++ (version ++ codes "-linux-amd64.tar.gz"))
    ∷ (codes "veil-desktop-" ++ (version ++ codes "-windows-amd64.zip"))
    ∷ (codes "veil_" ++ (version ++ codes "-1_x86_64.ipk"))
    ∷ (codes "luci-app-veil_" ++ (version ++ codes "-1_all.ipk"))
    ∷ (codes "veil-" ++ (version ++ codes "-r1.apk"))
    ∷ (codes "luci-app-veil-" ++ (version ++ codes "-r1.apk"))
    ∷ (codes "veil-opnsense-build-" ++ (version ++ codes ".tar.gz"))
    ∷ []

unfoldable pub payload : Text → List Text
unfolding files
payload version = sort_text (files version)

-- `name + ".sha256"`
abbrev pub checksum_name : Text → Text
checksum_name name = name ++ codes ".sha256"

abbrev pub sums_name : Text
sums_name = codes "SHA256SUMS"

-- `names + [name + ".sha256" for name in names] + ["SHA256SUMS"]`
unfoldable pub assets : Text → List Text
unfolding payload
assets version = payload version ++ (map checksum_name (payload version) ++ sums_name ∷ [])
