-- ===== src/Gzasm.antt =====
-- gzasm/gzasm.go: a handler that answers a request for a wasm file with a compressed one.
--
-- The handler it wraps and the file system are parameters: the calls that the handler makes on its
-- ResponseWriter, in order, for a request and by whether the writer is a ReaderFrom; and the size
-- of the file that fs.Stat finds for the path of a request, joined to the root of the file system.
-- A field of a header is a list of code points.
pub mod Strings
pub mod Accepting
pub mod Choice
pub mod Fields
mod Tests
use zugoui.Prelude.{
  ℕ, Text, text_eq, codes, List, [], ◌∷◌, ◌++◌, map, select, Bool, true, false, ◌||◌, ◌&&◌, not,
  Option, none, some, leb, ◌==◌, if◌then◌else◌, Assoc, lookup, insert,
}
use zugoui.Gzasm.Strings.{is_empty, trim_space, split_comma, ext}
use zugoui.Prelude.Int.{pos}
use zugoui.Prelude.Decimal.{itoa}

-- What the handler reads of a request; a field that is missing is empty.
pub record Request : Type 0 where
  pub method : Text
  pub path : Text
  pub range : Text
  pub accept_encoding : Text

abbrev pub method_get : Text
method_get = codes "GET"

abbrev pub ext_wasm : Text
ext_wasm = codes ".wasm"

abbrev pub br : Text
br = codes "br"

abbrev pub gzip : Text
gzip = codes "gzip"

abbrev pub extensions : Assoc Text
extensions = (gzip, codes ".gz") ∷ (br, codes ".br") ∷ []

abbrev pub preferred : List Text
preferred = br ∷ gzip ∷ []

text_or_empty : Option Text → Text
text_or_empty none = []
text_or_empty (some s) = s

-- extensions[encoding]
unfoldable pub extension : Text → Text
unfolding lookup text_or_empty
extension encoding = text_or_empty (lookup encoding extensions)

-- the encodings that the client accepts
unfoldable pub accepts : Request → List Text
unfolding trim_space split_comma is_empty
accepts r =
    select (λ e. not (is_empty e))
      (map (λ e. trim_space e) (split_comma (Request.accept_encoding r)))

-- _, ok := accepts[encoding]
unfoldable pub member : Text → List Text → Bool
member e [] = false
member e (x ∷ xs) = text_eq x e || member e xs

module _ (stat : Text → Option ℕ) where
  -- the loop over the preferred encodings
  unfoldable pub choose : List Text → List Text → Text → Option (Text × ℕ)
  unfolding member extension
  choose [] accepted path = none
  choose (encoding ∷ encodings) accepted path =
      let rest = choose encodings accepted path in
      if member encoding accepted
      then elim (stat (path ++ extension encoding)) [
        | none ↦ rest
        | some size ↦ some (encoding, size)
      ]
      else rest

  -- canServe
  unfoldable pub can_serve : Request → Option (Text × ℕ)
  unfolding choose accepts ext
  can_serve r =
      if not (text_eq (Request.method r) method_get)
      then none
      else if not (text_eq (ext (Request.path r)) ext_wasm)
      then none
      else if not (text_eq (Request.range r) [])
      then none
      else choose preferred (accepts r) (Request.path r)

-- A call on a ResponseWriter, with a field that is set in its Header.
pub data Call : Type 0 where
  write_header : ℕ → Call
  write : Text → Call
  read_from : Text → Call
  set_field : Text → Text → Call

pub record Writer : Type 0 where
  pub status_code : ℕ
  pub h : Assoc Text

-- maps.Copy
unfoldable pub copied : Assoc Text → List Call
copied [] = []
copied ((k, v) ∷ h) = set_field k v ∷ copied h

unfoldable pub assert_headers : Writer → Writer × List Call
unfolding copied
assert_headers w =
    let code = if Writer.status_code w == 0 then 200 else Writer.status_code w in
    (record { status_code = code; h = Writer.h w }, if code == 200 then copied (Writer.h w) else [])

-- WriteHeader, Write and ReadFrom, and Header of the writer that is wrapped
unfoldable pub forward : Writer → Call → Writer × List Call
unfolding assert_headers
forward w (write_header code) =
    let (w', calls) = assert_headers (record { status_code = code; h = Writer.h w }) in
    (w', calls ++ write_header code ∷ [])
forward w (write buf) = let (w', calls) = assert_headers w in (w', calls ++ write buf ∷ [])
forward w (read_from r) = let (w', calls) = assert_headers w in (w', calls ++ read_from r ∷ [])
forward w (set_field k v) = (w, set_field k v ∷ [])

unfoldable pub forward_all : Writer → List Call → List Call
unfolding forward
forward_all w [] = []
forward_all w (c ∷ cs) = let (w', calls) = forward w c in calls ++ forward_all w' cs

abbrev pub content_type : Text
content_type = codes "Content-Type"

abbrev pub content_length : Text
content_length = codes "Content-Length"

abbrev pub content_encoding : Text
content_encoding = codes "Content-Encoding"

abbrev pub application_wasm : Text
application_wasm = codes "application/wasm"

-- the fields that serveGz sets for a successful response
unfoldable pub fields : Text → ℕ → Assoc Text
unfolding insert zugoui.Prelude.Decimal.itoa
fields encoding size =
    insert content_encoding encoding
      (insert content_length (itoa (pos size)) (insert content_type application_wasm []))

-- r.URL.Path = r.URL.Path + extensions[encoding]
unfoldable pub renamed : Text → Request → Request
unfolding extension
renamed encoding r = record {
  method = Request.method r;
  path = Request.path r ++ extension encoding;
  range = Request.range r;
  accept_encoding = Request.accept_encoding r;
}

module _ (stat : Text → Option ℕ) (next : Bool → Request → List Call) where
  -- serveGz
  unfoldable pub serve_gz : Text → ℕ → Bool → Request → List Call
  unfolding forward_all fields renamed
  serve_gz encoding size reader_from r =
      forward_all (record { status_code = 0; h = fields encoding size })
        (next reader_from (renamed encoding r))

  served : Option (Text × ℕ) → Bool → Request → List Call
  unfolding serve_gz
  served none reader_from r = next reader_from r
  served (some (encoding, size)) reader_from r = serve_gz encoding size reader_from r

  -- ServeHTTP, by whether the writer that it is called with is a ReaderFrom
  unfoldable pub serve_http : Bool → Request → List Call
  unfolding can_serve served
  serve_http reader_from r = served (can_serve stat r) reader_from r
