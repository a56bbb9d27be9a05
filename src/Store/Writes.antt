-- ===== src/Store/Writes.antt =====
-- What the calls on a file leave: the file with all of the bytes behind it, or, after an error,
-- with the first few of them.
use disc_rescue.Prelude.{
  ℕ, zero, suc, ◌+◌, ◌≡◌, refl, sym, ap, subst, ◌∙◌, List, [], ◌∷◌, ◌++◌, append-nil, append_assoc,
  arith, length, take, drop, take-append, take_all, take-drop, take_within, take_beyond, none, some,
  Bool-cases, inl, inr, ltb,
}
use disc_rescue.Store.Disk.{
  Answer, completes, writes, fails, File, Done, ◌▷◌, answer_call, seek_end, sync, write_loop,
  write_full,
}
use disc_rescue.Store.{write_records}

abbrev pub concat : List (List ℕ) → List ℕ
concat [] = []
concat (r ∷ rs) = r ++ concat rs

pub concat-append : (rs qs : List (List ℕ)) → concat (rs ++ qs) ≡ concat rs ++ concat qs
concat-append [] qs = refl
concat-append (r ∷ rs) qs =
    ap (λ t. r ++ t) (concat-append rs qs) ∙ sym (append_assoc r (concat rs) (concat qs))

-- The bytes stand behind those of the file, or the first `k` of them do; nothing more is durable.
abbrev pub Appends : File → List ℕ → Done → Type 0
Appends f bs (f', none) = (f'.bytes ≡ f.bytes ++ bs) × (f'.synced ≡ f.synced)
Appends f bs (f', some e) = (k : ℕ) × (f'.bytes ≡ f.bytes ++ take k bs) × (f'.synced ≡ f.synced)

-- As above, and with no error all of it is durable.
abbrev pub Flushes : File → List ℕ → Done → Type 0
Flushes f bs (f', none) = (f'.bytes ≡ f.bytes ++ bs) × (f'.synced ≡ f'.bytes)
Flushes f bs (f', some e) = (k : ℕ) × (f'.bytes ≡ f.bytes ++ take k bs) × (f'.synced ≡ f.synced)

take_part : (k : ℕ) (xs ys : List ℕ) → (m : ℕ) × (take m (xs ++ ys) ≡ take k xs)
take_part k xs ys = elim (Bool-cases (ltb k (length xs))) [
  | inl t ↦ (k, take_within k xs ys (ground (arith, t)))
  | inr t ↦
      (length xs, take-append (length xs) xs ys refl ∙ sym (take_all k xs (ground (arith, t))))
]

take_later : (k : ℕ) (xs ys : List ℕ) → take (length xs + k) (xs ++ ys) ≡ xs ++ take k ys
take_later k xs ys =
    take_beyond (length xs + k) xs ys (omega arith) ∙ ap (λ m. xs ++ take m ys) (omega arith)

module _ (f g : File) (xs ys : List ℕ) (e1 : g.bytes ≡ f.bytes ++ xs)
    (e2 : g.synced ≡ f.synced) where
  joined_bytes : (zs : List ℕ) → g.bytes ++ zs ≡ f.bytes ++ (xs ++ zs)
  joined_bytes zs = ap (λ t. t ++ zs) e1 ∙ append_assoc f.bytes xs zs

  later_bytes : (k : ℕ) → g.bytes ++ take k ys ≡ f.bytes ++ take (length xs + k) (xs ++ ys)
  later_bytes k = joined_bytes (take k ys) ∙ ap (λ t. f.bytes ++ t) (sym (take_later k xs ys))

  Appends-after : (d : Done) → Appends g ys d → Appends f (xs ++ ys) d
  Appends-after (h, none) (a, b) = (a ∙ joined_bytes ys, b ∙ e2)
  Appends-after (h, some e) (k, a, b) = (length xs + k, a ∙ later_bytes k, b ∙ e2)

  Flushes-after : (d : Done) → Flushes g ys d → Flushes f (xs ++ ys) d
  Flushes-after (h, none) (a, b) = (a ∙ joined_bytes ys, b)
  Flushes-after (h, some e) (k, a, b) = (length xs + k, a ∙ later_bytes k, b ∙ e2)

pub Appends-then :
    (f : File) (xs ys : List ℕ) (next : File → Done) (d : Done)
    → Appends f xs d
    → ((g : File) → Appends g ys (next g))
    → Appends f (xs ++ ys) (d ▷ next)
Appends-then f xs ys next (g, none) (a, b) h = Appends-after f g xs ys a b (next g) (h g)
Appends-then f xs ys next (g, some e) (k, a, b) h =
    let (m, p) = take_part k xs ys in (m, a ∙ ap (λ t. f.bytes ++ t) (sym p), b)

pub Flushes-then :
    (f : File) (xs ys : List ℕ) (next : File → Done) (d : Done)
    → Appends f xs d
    → ((g : File) → Flushes g ys (next g))
    → Flushes f (xs ++ ys) (d ▷ next)
Flushes-then f xs ys next (g, none) (a, b) h = Flushes-after f g xs ys a b (next g) (h g)
Flushes-then f xs ys next (g, some e) (k, a, b) h =
    let (m, p) = take_part k xs ys in (m, a ∙ ap (λ t. f.bytes ++ t) (sym p), b)

write_loop-Appends :
    (f : File) (later : List Answer) (bs : List ℕ) → Appends f bs (write_loop f later bs)
unfolding write_loop
write_loop-Appends f [] [] = (sym (append-nil f.bytes), refl)
write_loop-Appends f (a ∷ later) [] = (sym (append-nil f.bytes), refl)
write_loop-Appends f [] (b ∷ bs) = (refl, refl)
write_loop-Appends f (completes ∷ later) (b ∷ bs) = (refl, refl)
write_loop-Appends f (writes zero ∷ later) (b ∷ bs) = (0, sym (append-nil f.bytes), refl)
write_loop-Appends f (writes (suc n) ∷ later) (b ∷ bs) =
    let g = record f { bytes = f.bytes ++ take (suc n) (b ∷ bs) } in
    subst (λ z. Appends f z (write_loop g later (drop n bs))) (ap (λ t. b ∷ t) (take-drop n bs))
      (Appends-after f g (take (suc n) (b ∷ bs)) (drop n bs) refl refl
        (write_loop g later (drop n bs)) (write_loop-Appends g later (drop n bs)))
write_loop-Appends f (fails n ∷ later) (b ∷ bs) = (n, refl, refl)

pub write_full-Appends : (bs : List ℕ) (f : File) → Appends f bs (write_full bs f)
unfolding write_full
write_full-Appends bs f = write_loop-Appends f f.answers bs

pub write_records-Appends :
    (rs : List (List ℕ)) (f : File) → Appends f (concat rs) (write_records rs f)
unfolding write_records
write_records-Appends [] f = (sym (append-nil f.bytes), refl)
write_records-Appends (r ∷ rs) f =
    Appends-then f r (concat rs) (write_records rs) (write_full r f) (write_full-Appends r f)
      (write_records-Appends rs)

call-Appends : (f : File) (later : List Answer) → Appends f [] (answer_call f later)
call-Appends f [] = (sym (append-nil f.bytes), refl)
call-Appends f (completes ∷ later) = (sym (append-nil f.bytes), refl)
call-Appends f (writes n ∷ later) = (sym (append-nil f.bytes), refl)
call-Appends f (fails n ∷ later) = (0, sym (append-nil f.bytes), refl)

pub seek_end-Appends : (f : File) → Appends f [] (seek_end f)
unfolding seek_end
seek_end-Appends f = call-Appends f f.answers

pub sync-Flushes : (f : File) → Flushes f [] (sync f)
unfolding sync
sync-Flushes f =
    Flushes-then f [] [] _ (answer_call f f.answers) (call-Appends f f.answers)
      (λ g. (sym (append-nil g.bytes), refl))
