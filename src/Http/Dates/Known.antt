-- ===== src/Http/Dates/Known.antt =====
-- http/httpaa.h: which days of the week and months are recognised.
use httpaa.Base.{
  ℕ, ◌≡◌, refl, ap, sym, subst, ◌∙◌, true, false, List, [], ◌∷◌, ◌++◌, length, drop, map, codes,
}
use httpaa.Stringaa.Defs.{Stringaa, to_lower}
use httpaa.Stringaa.Rests.{Rests}
use httpaa.Http.Arrays.{date_wkday_array, date_weekday_array, date_month_array}
use httpaa.Http.Rule.{Rule, one_of}
use httpaa.Http.Rule.Facts.{Reads}
use httpaa.Http.Dates.{any_case, wkday, weekday, month}
use httpaa.Http.Dates.Lowered.{words_at, one_of-words_at}

map-append : (v r : List ℕ) → map to_lower (v ++ r) ≡ map to_lower v ++ map to_lower r
map-append [] r = refl
map-append (c ∷ v) r = ap (λ l. to_lower c ∷ l) (map-append v r)

drop-map-length : (v r : List ℕ) → drop (length (map to_lower v)) (v ++ r) ≡ r
drop-map-length [] r = refl
drop-map-length (c ∷ v) r = drop-map-length v r

drop-word : (v r t : List ℕ) → map to_lower v ≡ t → drop (length t) (v ++ r) ≡ r
drop-word v r t e = subst (λ u. drop (length u) (v ++ r) ≡ r) e (drop-map-length v r)

module _ (ws : List (List ℕ)) (v t : List ℕ) (e : map to_lower v ≡ t) where
  lowered : (r : List ℕ) → t ++ map to_lower r ≡ map to_lower (v ++ r)
  lowered r = ap (λ l. l ++ map to_lower r) (sym e) ∙ sym (map-append v r)

  found_word :
      ((m : List ℕ) → words_at ws (t ++ m) ≡ (true, length t)) → Reads (one_of any_case ws) v
  found_word f r s h =
      let (s', g, h') =
        one_of-words_at ws (v ++ r) s true (length t) h
          (ap (words_at ws) (sym (lowered r)) ∙ f (map to_lower r)) in
      (s', g, subst (Rests s') (drop-word v r t e) h')

  missed_word :
      (n : ℕ)
      → ((m : List ℕ) → words_at ws (t ++ m) ≡ (false, n))
      → (r : List ℕ) (s : Stringaa) → Rests s (v ++ r)
      → (one_of any_case ws s).0 ≡ false
  missed_word n f r s h =
      let (s', g, h') =
        one_of-words_at ws (v ++ r) s false n h
          (ap (words_at ws) (sym (lowered r)) ∙ f (map to_lower r)) in
      ap (λ x. x.0) g

-- The words of each array that are found, in lower case.
pub data Known : Rule → List ℕ → Type 0 where
  mon : Known wkday (codes "mon")
  tue : Known wkday (codes "tue")
  wed : Known wkday (codes "wed")
  fri : Known wkday (codes "fri")
  sat : Known wkday (codes "sat")
  monday : Known weekday (codes "monday")
  tuesday : Known weekday (codes "tuesday")
  wednesday : Known weekday (codes "wednesday")
  friday : Known weekday (codes "friday")
  saturday : Known weekday (codes "saturday")
  jan : Known month (codes "jan")
  feb : Known month (codes "feb")
  mar : Known month (codes "mar")
  apr : Known month (codes "apr")
  sep : Known month (codes "sep")
  oct : Known month (codes "oct")
  nov : Known month (codes "nov")
  dec : Known month (codes "dec")

-- The words of each array that are not found.
pub data Missed : Rule → List ℕ → Type 0 where
  thu : Missed wkday (codes "thu")
  sun : Missed wkday (codes "sun")
  thursday : Missed weekday (codes "thursday")
  sunday : Missed weekday (codes "sunday")
  may : Missed month (codes "may")
  jun : Missed month (codes "jun")
  jul : Missed month (codes "jul")
  aug : Missed month (codes "aug")

-- These days and months are read, in any case of letters.
pub Known-Reads : (p : Rule) (t v : List ℕ) → Known p t → map to_lower v ≡ t → Reads p v
unfolding wkday weekday month to_lower
Known-Reads _ _ v Known.mon e = found_word date_wkday_array v (codes "mon") e (λ m. refl)
Known-Reads _ _ v Known.tue e = found_word date_wkday_array v (codes "tue") e (λ m. refl)
Known-Reads _ _ v Known.wed e = found_word date_wkday_array v (codes "wed") e (λ m. refl)
Known-Reads _ _ v Known.fri e = found_word date_wkday_array v (codes "fri") e (λ m. refl)
Known-Reads _ _ v Known.sat e = found_word date_wkday_array v (codes "sat") e (λ m. refl)
Known-Reads _ _ v Known.monday e = found_word date_weekday_array v (codes "monday") e (λ m. refl)
Known-Reads _ _ v Known.tuesday e = found_word date_weekday_array v (codes "tuesday") e (λ m. refl)
Known-Reads _ _ v Known.wednesday e =
    found_word date_weekday_array v (codes "wednesday") e (λ m. refl)
Known-Reads _ _ v Known.friday e = found_word date_weekday_array v (codes "friday") e (λ m. refl)
Known-Reads _ _ v Known.saturday e =
    found_word date_weekday_array v (codes "saturday") e (λ m. refl)
Known-Reads _ _ v Known.jan e = found_word date_month_array v (codes "jan") e (λ m. refl)
Known-Reads _ _ v Known.feb e = found_word date_month_array v (codes "feb") e (λ m. refl)
Known-Reads _ _ v Known.mar e = found_word date_month_array v (codes "mar") e (λ m. refl)
Known-Reads _ _ v Known.apr e = found_word date_month_array v (codes "apr") e (λ m. refl)
Known-Reads _ _ v Known.sep e = found_word date_month_array v (codes "sep") e (λ m. refl)
Known-Reads _ _ v Known.oct e = found_word date_month_array v (codes "oct") e (λ m. refl)
Known-Reads _ _ v Known.nov e = found_word date_month_array v (codes "nov") e (λ m. refl)
Known-Reads _ _ v Known.dec e = found_word date_month_array v (codes "dec") e (λ m. refl)

-- Thursday, Sunday, and the months from May to August are never recognised: a word in front of them in the array
-- has taken their first letters.
pub Missed_lem :
    (p : Rule) (t v r : List ℕ) (s : Stringaa)
    → Missed p t
    → map to_lower v ≡ t
    → Rests s (v ++ r)
    → (p s).0 ≡ false
unfolding wkday weekday month to_lower
Missed_lem _ _ v r s Missed.thu e h =
    missed_word date_wkday_array v (codes "thu") e 1 (λ m. refl) r s h
Missed_lem _ _ v r s Missed.sun e h =
    missed_word date_wkday_array v (codes "sun") e 1 (λ m. refl) r s h
Missed_lem _ _ v r s Missed.thursday e h =
    missed_word date_weekday_array v (codes "thursday") e 1 (λ m. refl) r s h
Missed_lem _ _ v r s Missed.sunday e h =
    missed_word date_weekday_array v (codes "sunday") e 1 (λ m. refl) r s h
Missed_lem _ _ v r s Missed.may e h =
    missed_word date_month_array v (codes "may") e 2 (λ m. refl) r s h
Missed_lem _ _ v r s Missed.jun e h =
    missed_word date_month_array v (codes "jun") e 1 (λ m. refl) r s h
Missed_lem _ _ v r s Missed.jul e h =
    missed_word date_month_array v (codes "jul") e 1 (λ m. refl) r s h
Missed_lem _ _ v r s Missed.aug e h =
    missed_word date_month_array v (codes "aug") e 1 (λ m. refl) r s h
