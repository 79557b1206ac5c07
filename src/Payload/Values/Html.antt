-- ===== src/Payload/Values/Html.antt =====
-- normalize.ts, `textToHtml`: the passes against one pass over the units.
use simple_rss_notifications.Base.{
  ℕ, ◌≡◌, refl, Bool, false, [], ◌∷◌, ◌++◌, Text, ◌==◌, if◌then◌else◌, arith,
}
use simple_rss_notifications.Base.Strings.{codes}
use simple_rss_notifications.Payload.Values.{replace_unit, unix_lines, escape_text, text_to_html}

-- One unit in HTML.
unfoldable pub html_unit : ℕ → Text
html_unit c =
    if c == b'&'
    then codes "&amp;"
    else if c == b'<'
    then codes "&lt;"
    else if c == b'>'
    then codes "&gt;"
    else c ∷ []

abbrev pub html_units : Text → Text
html_units [] = []
html_units (c ∷ s) = html_unit c ++ html_units s

pub escape_text_units : (s : Text) → escape_text s ≡ html_units s
unfolding escape_text html_unit replace_unit
escape_text_units [] = refl
escape_text_units (c ∷ s) = ground (arith, escape_text_units s)

-- The whole conversion in one pass: a line break for each CR, LF or CR LF.
unfoldable pub html_pass : Bool → Text → Text
unfolding html_unit
html_pass after_cr [] = []
html_pass after_cr (c ∷ s) =
    let rest = html_pass (c == 13) s in
    if c == 13
    then codes "<br>" ++ rest
    else if c == 10
    then if after_cr then rest else codes "<br>" ++ rest
    else html_unit c ++ rest

breaks_units :
    (b : Bool) (s : Text)
    → replace_unit 10 (codes "<br>") (unix_lines b (html_units s)) ≡ html_pass b s
unfolding html_pass html_unit replace_unit unix_lines
breaks_units b [] = refl
breaks_units b (c ∷ s) = ground (arith, breaks_units (c == 13) s)

-- The five replacements of `textToHtml`, in their order, do what one pass over the text does: each
-- of the three special characters becomes its entity once, and each line end one `<br>`.
pub text_to_html-html_pass : (s : Text) → text_to_html s ≡ html_pass false s
unfolding text_to_html
text_to_html-html_pass s = rw (escape_text_units s) (breaks_units false s)
