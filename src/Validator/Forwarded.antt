-- ===== src/Validator/Forwarded.antt =====
-- Which part of the header x-forwarded-for decides the address of a client of
-- resolver/validator.go.
use lightnode.Common.{
  ℕ, ◌≡◌, refl, ap, sym, ◌∙◌, Bool, false, not, Option, some, List, [], ◌∷◌, ◌++◌, arith,
  if◌then◌else◌, Bool-cases, inl, inr,
}
use lightnode.Common.Ascii.{split, onto_first}
use lightnode.Common.Eq.{number_eq, bytes_eq, ◌==◌}
use lightnode.Common.Result.{ok, err, ◌>>=◌}
use lightnode.Darknode.{Bytes}
use lightnode.Validator.{
  trim_front, trim_back, trim_space, or_entry, last_entry, ip_string, Net, on_ip_string, client_ip,
  admit, rate_limited,
}

abbrev later : List Bytes → List Bytes
later [] = []
later (part ∷ parts) = parts

later-onto_first : (c : ℕ) (parts : List Bytes) → later (onto_first c parts) ≡ later parts
later-onto_first c [] = refl
later-onto_first c (part ∷ parts) = refl

last_entry-later :
    (parts : List Bytes) (entry : Bytes)
    → last_entry (later parts) ≡ some entry
    → last_entry parts ≡ some entry
unfolding last_entry
last_entry-later [] entry h = h
last_entry-later (part ∷ parts) entry h = ap (or_entry (trim_space part)) h

-- What stands before a comma does not change the last entry.
split-append :
    (before after entry : Bytes)
    → last_entry (split 44 after) ≡ some entry
    → last_entry (later (split 44 (before ++ 44 ∷ after))) ≡ some entry
unfolding split
split-append [] after entry h = h
split-append (c ∷ before) after entry h = elim (Bool-cases (c == 44)) [
  | inl comma ↦
      rw (comma, split)
        (last_entry-later (split 44 (before ++ 44 ∷ after)) entry
          (split-append before after entry h))
  | inr other ↦
      rw (other, split)
        (rw (later-onto_first c (split 44 (before ++ 44 ∷ after)))
          (split-append before after entry h))
]

nonempty_append : (before after : Bytes) → (before ++ 44 ∷ after == []) ≡ false
nonempty_append [] after = refl
nonempty_append (c ∷ before) after = refl

ip_string-append :
    (before after remote_addr entry : Bytes)
    → last_entry (split 44 after) ≡ some entry
    → ip_string (before ++ 44 ∷ after) remote_addr ≡ some entry
unfolding ip_string
ip_string-append before after remote_addr entry h =
    rw (nonempty_append before after)
      (last_entry-later (split 44 (before ++ 44 ∷ after)) entry (split-append before after entry h))

ip_string-last_entry :
    (after remote_addr entry : Bytes)
    → last_entry (split 44 after) ≡ some entry
    → ip_string after remote_addr ≡ some entry
unfolding ip_string last_entry split trim_space trim_front trim_back
ip_string-last_entry [] remote_addr entry h = absurd (ground (arith, h))
ip_string-last_entry (c ∷ after) remote_addr entry h = h

module _ (net : Net) (allow : Option net.Ip → Bool) where
  -- Entries that a client writes before those of the proxy, which are not all blank, change neither
  -- its address nor whether it is admitted, and neither does its remote address.
  pub admit-append :
      (before after entry remote_addr other_addr : Bytes)
      → last_entry (split 44 after) ≡ some entry
      → admit net allow (before ++ 44 ∷ after) remote_addr ≡ admit net allow after other_addr
  unfolding admit client_ip
  admit-append before after entry remote_addr other_addr h =
      ap
        (λ text. on_ip_string net text >>= λ ip. if not (allow ip) then err rate_limited else ok ip)
        (ip_string-append before after remote_addr entry h
          ∙ sym (ip_string-last_entry after other_addr entry h))
