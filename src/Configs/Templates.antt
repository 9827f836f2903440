-- ===== src/Configs/Templates.antt =====
-- `_template_inbound_contents`, `_template_outbound_contents`: what a template's payload has, as dicts.
use marzban.Common.{
  String, Bool, true, false, not, ◌&&◌, Option, none, some, [], ◌∷◌, str_eq, eq_iff, ◌≡◌, refl, sym,
  ap, ◌∙◌, inl, inr, Bool-cases,
}
use marzban.Common.Text.{str_eq_sym}
use marzban.Json.{
  Json, Fields, Values, no_values, value, object, text, null, boolean, number, array,
}
use marzban.Configs.Sync.{
  Contents, content_of, put_content, put_tagged, put_entry, put_entries, tag_of, entries,
  template_inbound_contents, template_outbound_contents, protocol_known,
}
use marzban.Configs.Written.{UniqueKeys}

pub content_of-put_content :
    (k : String) (c : Fields) (l : Contents) → content_of k (put_content k c l) ≡ some c
unfolding content_of put_content
content_of-put_content k c [] = rw ((eq_iff k k).1 refl) refl
content_of-put_content k c ((t, d) ∷ l) = elim (Bool-cases (str_eq t k)) [
  | inl e ↦ rw e (rw ((eq_iff k k).1 refl) refl)
  | inr e ↦ rw e (rw e (content_of-put_content k c l))
]

pub content_of-put_content_other :
    (k j : String) (c : Fields) (l : Contents)
    → str_eq k j ≡ false
    → content_of j (put_content k c l) ≡ content_of j l
unfolding content_of put_content
content_of-put_content_other k j c [] h = rw h refl
content_of-put_content_other k j c ((t, d) ∷ l) h = elim (Bool-cases (str_eq t k)) [
  | inl e ↦ rw e (rw (h, ap (λ x. str_eq x j) ((eq_iff t k).0 e) ∙ h) refl)
  | inr e ↦ rw e (rw (content_of-put_content_other k j c l h) refl)
]

content_of_nothing : (t : String) → content_of t [] ≡ none
unfolding content_of
content_of_nothing t = refl

put_content-UniqueKeys :
    (k : String) (c : Fields) (l : Contents) → UniqueKeys l → UniqueKeys (put_content k c l)
unfolding put_content
put_content-UniqueKeys k c [] u = (content_of_nothing k, tt)
put_content-UniqueKeys k c ((t, d) ∷ l) u = elim (Bool-cases (str_eq t k)) [
  | inl e ↦ rw e (ap (λ x. content_of x l) (sym ((eq_iff t k).0 e)) ∙ u.0, u.1)
  | inr e ↦ rw e (
    content_of-put_content_other k t c l (str_eq_sym t k e) ∙ u.0,
    put_content-UniqueKeys k c l u.1,
  )
]

module _ (wanted : String → Fields → Bool) where
  put_tagged-UniqueKeys :
      (o : Option String) (c : Fields) (l : Contents)
      → UniqueKeys l
      → UniqueKeys (put_tagged wanted o c l)
  put_tagged-UniqueKeys none c l u = u
  put_tagged-UniqueKeys (some t) c l u = elim (Bool-cases (wanted t c)) [
    | inl w ↦ rw w (put_content-UniqueKeys t c l u)
    | inr w ↦ rw w u
  ]

  put_entry-UniqueKeys :
      (v : Json) (l : Contents) → UniqueKeys l → UniqueKeys (put_entry wanted v l)
  put_entry-UniqueKeys (object c) l u = put_tagged-UniqueKeys (tag_of c) c l u
  put_entry-UniqueKeys null l u = u
  put_entry-UniqueKeys (boolean b) l u = u
  put_entry-UniqueKeys (number n) l u = u
  put_entry-UniqueKeys (text s) l u = u
  put_entry-UniqueKeys (array a) l u = u

  pub put_entries-UniqueKeys :
      (vs : Values) (l : Contents) → UniqueKeys l → UniqueKeys (put_entries wanted vs l)
  unfolding put_entries
  put_entries-UniqueKeys no_values l u = u
  put_entries-UniqueKeys (value v vs) l u =
      put_entries-UniqueKeys vs (put_entry wanted v l) (put_entry-UniqueKeys v l u)

pub template_inbound_contents-UniqueKeys :
    (known excluded : String → Bool) (payload : Fields)
    → UniqueKeys (template_inbound_contents known excluded payload)
unfolding template_inbound_contents
template_inbound_contents-UniqueKeys known excluded payload =
    put_entries-UniqueKeys (λ t c. protocol_known known c && not (excluded t))
      (entries "inbounds" payload) [] tt

pub template_outbound_contents-UniqueKeys :
    (payload : Fields) → UniqueKeys (template_outbound_contents payload)
unfolding template_outbound_contents
template_outbound_contents-UniqueKeys payload =
    put_entries-UniqueKeys (λ t c. true) (entries "outbounds" payload) [] tt
