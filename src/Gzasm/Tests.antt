-- ===== src/Gzasm/Tests.antt =====
-- gzasm/gzasm.go: tests of the handler, and its theorems at concrete inputs.
use zugoui.Prelude.{
  ℕ, Text, text_eq, codes, List, [], ◌∷◌, Bool, Option, none, some, if◌then◌else◌, ◌≡◌, refl,
}
use zugoui.Gzasm.{
  Request, Call, write_header, write, set_field, method_get, br, gzip, can_serve, accepts,
}
use zugoui.Gzasm.Strings.{ext}
use zugoui.Gzasm.Strings.{trim_space}
use zugoui.Gzasm.Choice.{Eligible, Best, can_serve-Best}

abbrev page : Text → Text → Request
page path accept = record { method = method_get; path = path; range = []; accept_encoding = accept }

abbrev main_wasm : Request
main_wasm = page (codes "/main.wasm") (codes "gzip, deflate , br")

-- a file system with a gzipped file alone
abbrev disk : Text → Option ℕ
disk name = if text_eq name (codes "/main.wasm.gz") then some 7 else none

-- a file server
abbrev file_server : Bool → Request → List Call
file_server reader_from r =
    set_field (codes "Content-Type") (codes "application/gzip")
    ∷ write_header (if text_eq (Request.path r) (codes "/main.wasm.gz") then 200 else 404)
    ∷ write (codes "body")
    ∷ []

trim_test : trim_space (codes "  gzip ") ≡ gzip
unfolding trim_space
trim_test = refl

accepts_test : accepts main_wasm ≡ gzip ∷ codes "deflate" ∷ br ∷ []
unfolding accepts
accepts_test = refl

ext_dir_test : ext (codes "/main.wasm/x") ≡ []
unfolding ext
ext_dir_test = refl

ext_test : ext (codes "/a.b/main.min.wasm") ≡ codes ".wasm"
unfolding ext
ext_test = refl

can_serve_test : can_serve disk main_wasm ≡ some (gzip, 7)
unfolding can_serve text_eq
can_serve_test = refl

can_serve_html_test : can_serve disk (page (codes "/index.html") (codes "gzip")) ≡ none
unfolding can_serve text_eq
can_serve_html_test = refl

-- An entry with a weight is no name of an encoding.
can_serve_weight_test : can_serve disk (page (codes "/main.wasm") (codes "gzip;q=1.0")) ≡ none
unfolding can_serve text_eq
can_serve_weight_test = refl

can_serve-Best_example : Eligible main_wasm × Best disk main_wasm gzip 7
can_serve-Best_example = (can_serve-Best disk main_wasm gzip 7).0 can_serve_test
