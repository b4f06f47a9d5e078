-- ===== src/Server/Settings/Texts.antt =====
-- Lists of entry points and of certificates are read back from what they print.
use traefik.Prelude.{
  false, none, List, [], ◌∷◌, ◌++◌, Str, map, ◌≡◌, refl, sym, ap, ◌∙◌, All, All-append, append-nil,
  append_assoc,
}
use traefik.Text.{is, split, join}
use traefik.Text.Split.{Lacks, split-join}
use traefik.Server.Settings.{
  Certificate, certificate_text, certificates_string, certificates_set, certificates_from,
  certificate_of, default_entry_points_string, default_entry_points_set,
}

-- Entry points are read back from what they print: there has to be one, and no name may hold a comma.
pub default_entry_points_set-string :
    (e : Str) (es : List Str)
    → All (Lacks (is b',')) (e ∷ es)
    → default_entry_points_set (default_entry_points_string (e ∷ es)) [] ≡ e ∷ es
unfolding default_entry_points_set default_entry_points_string split
default_entry_points_set-string e es h = split-join b',' e es h

-- A certificate whose files hold neither comma nor semicolon.
abbrev pub IsListable : Certificate → Type 0
IsListable c =
    Lacks (is b',') c.cert_file
    × Lacks (is b',') c.key_file
    × Lacks (is b';') c.cert_file
    × Lacks (is b';') c.key_file

text-Lacks :
    (cs : List Certificate) → All IsListable cs → All (Lacks (is b';')) (map certificate_text cs)
text-Lacks [] h = tt
text-Lacks (c ∷ cs) ((_, _, p, q), h) = (
  All-append (λ x. is b';' x ≡ false) c.cert_file (b',' ∷ c.key_file) p (refl, q),
  text-Lacks cs h,
)

split-certificate_text :
    (c : Certificate)
    → IsListable c
    → split b',' (certificate_text c) ≡ c.cert_file ∷ c.key_file ∷ []
unfolding split join
split-certificate_text c (p, q, _, _) = split-join b',' c.cert_file (c.key_file ∷ []) (p, (q, tt))

certificates_from-map :
    (value : Str) (cs old : List Certificate)
    → All IsListable cs
    → certificates_from value (map certificate_text cs) old ≡ (old ++ cs, none)
unfolding certificates_from certificate_of
certificates_from-map value [] old h = ap (λ r. (r, none)) (sym (append-nil old))
certificates_from-map value (c ∷ cs) old (v, h) =
    rw (split-certificate_text c v, certificates_from)
      (certificates_from-map value cs (old ++ c ∷ []) h
        ∙ ap (λ r. (r, none)) (append_assoc old (c ∷ []) cs))

-- Certificates are read back from what they print, behind those that are there: there has to be one,
-- and their files may hold neither comma nor semicolon.
pub certificates_set-string :
    (c : Certificate) (cs old : List Certificate)
    → All IsListable (c ∷ cs)
    → certificates_set (certificates_string (c ∷ cs)) old ≡ (old ++ c ∷ cs, none)
unfolding certificates_set certificates_string split
certificates_set-string c cs old h =
    rw (split-join b';' (certificate_text c) (map certificate_text cs) (text-Lacks (c ∷ cs) h))
      (certificates_from-map _ (c ∷ cs) old h)
