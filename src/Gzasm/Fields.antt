-- ===== src/Gzasm/Fields.antt =====
-- gzasm/gzasm.go: the header of a response that serveGz changes.
use zugoui.Prelude.Int.{pos}
use zugoui.Prelude.Decimal.{itoa}
use zugoui.Prelude.{
  text_eq, lookup, codes, not, ℕ, Text, List, [], ◌∷◌, Option, none, some, ◌==◌, ltb, if◌then◌else◌,
  Assoc, insert, ◌≡◌, ◌≤◌,
}
use zugoui.Gzasm.{Call, write_header, write, read_from, set_field}

-- The status and the fields that the client gets, as net/http says: what the Header holds when a
-- status is written that is not informational, or the first byte of the body.
unfoldable pub response : Assoc Text → List Call → Option (ℕ × Assoc Text)
response header [] = none
response header (write_header code ∷ calls) =
    let rest = response header calls in if ltb code 200 then rest else some (code, header)
response header (write buf ∷ calls) = some (200, header)
response header (read_from r ∷ calls) = some (200, header)
response header (set_field k v ∷ calls) = response (insert k v header) calls

-- the fields of a header after others are copied to it
unfoldable pub overlaid : Assoc Text → Assoc Text → Assoc Text
overlaid [] header = header
overlaid ((k, v) ∷ h) header = overlaid h (insert k v header)

-- the same response, with the fields copied to it if it is successful
unfoldable pub labelled : Assoc Text → Option (ℕ × Assoc Text) → Option (ℕ × Assoc Text)
unfolding overlaid
labelled h none = none
labelled h (some (code, header)) = some (code, if code == 200 then overlaid h header else header)

-- The call writes no informational status.
abbrev pub IsFinal : Call → Type 0
IsFinal (write_header code) = 200 ≤ code
IsFinal (write buf) = Unit
IsFinal (read_from r) = Unit
IsFinal (set_field k v) = Unit

-- The extension of the file with an encoding.
pub data Extends : Text → Text → Type 0 where
  extends_br : Extends (codes "br") (codes ".br")
  extends_gzip : Extends (codes "gzip") (codes ".gz")

-- The response is the other one; if its status is 200, with the content type of wasm, the size and the
-- encoding as fields of its header, and its other fields as they were.
abbrev pub IsLabelled : Text → ℕ → Option (ℕ × Assoc Text) → Option (ℕ × Assoc Text) → Type 0
IsLabelled e n none got = got ≡ none
IsLabelled e n (some (code, header)) got =
    (header' : Assoc Text) × (got ≡ some (code, header'))
    × ((k : Text)
        → lookup k header' ≡ (
            if not (code == 200)
            then lookup k header
            else if text_eq (codes "Content-Encoding") k
            then some e
            else if text_eq (codes "Content-Length") k
            then some (itoa (pos n))
            else if text_eq (codes "Content-Type") k
            then some (codes "application/wasm")
            else lookup k header))
