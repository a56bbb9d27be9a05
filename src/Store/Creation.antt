-- ===== src/Store/Creation.antt =====
-- A store that `Create` returns is sound, and its file is read back.
use disc_rescue.Prelude.{
  ℕ, ◌+◌, ◌≡◌, refl, sym, ap, subst, ◌∙◌, Bool, Bool-cases, inl, inr, false, List, [], ◌∷◌, ◌++◌,
  append-nil, arith, length, take, drop, take_all, drop_all, ltb, Option, some, none, Result,
  Result-cases, ok, err, >>=-eq-ok, >>-eq-ok, if◌then◌else◌,
}
use disc_rescue.Mapfile.Header.{Header, validate_header, marshal_header, unmarshal_header}
use disc_rescue.Mapfile.Header.Laws.{IsTyped, unmarshal_header-marshal_header}
use disc_rescue.Mapfile.Checkpoint.{marshal_checkpoint, unmarshal_checkpoint}
use disc_rescue.Mapfile.Checkpoint.Laws.{unmarshal_checkpoint-marshal_checkpoint}
use disc_rescue.Mapfile.Replay.Frames.{replay_records}
use disc_rescue.Store.Disk.{
  StoreError, short_write, Removal, Answer, completes, writes, fails, File, Done, ◌▷◌, answer_call,
  seek_end, sync, write_at, write_at_answered, overwrite,
}
use disc_rescue.Store.{Store, coded, with_shutdown}
use disc_rescue.Store.Session.{
  no_records, empty_file, open_file, created, refused, abandoned, prepare_new, write_new, new_store,
  create,
}
use disc_rescue.Store.Sound.{IsSound, coded-eq-ok, none-some, journal_of-nil}
use disc_rescue.Store.Reopen.{Front}

-- A chain of calls with no error is made of calls with none.
pub ▷-eq-none :
    (d : Done) (next : File → Done) (f : File)
    → (d ▷ next) ≡ (f, none)
    → (g : File) × (d ≡ (g, none)) × (next g ≡ (f, none))
▷-eq-none (g, none) next f h = (g, refl, h)
▷-eq-none (g, some e) next f h = absurd (none-some (ap (λ p. p.1) h))

-- What a call with no error leaves of the bytes.
pub record Leaves (bytes durable : List ℕ) (f : File) : Type 0 where
  pub bytes_left : f.bytes ≡ bytes
  pub durable_left : f.synced ≡ durable

Leaves-same :
    (f g : File) (o : Option StoreError)
    → ◌≡◌ {A = Done} (f, o) (g, none)
    → Leaves f.bytes f.synced g
Leaves-same f g o h = record {
  bytes_left = ap (λ (p : Done). p.0.bytes) (sym h);
  durable_left = ap (λ (p : Done). p.0.synced) (sym h);
}

call-Leaves :
    (f g : File) (later : List Answer) → answer_call f later ≡ (g, none) → Leaves f.bytes f.synced g
call-Leaves f g [] h = Leaves-same f g none h
call-Leaves f g (completes ∷ later) h = Leaves-same (record f { answers = later }) g none h
call-Leaves f g (writes n ∷ later) h = Leaves-same (record f { answers = later }) g none h
call-Leaves f g (fails n ∷ later) h = absurd (none-some (ap (λ p. p.1) h))

seek_end-Leaves : (f g : File) → seek_end f ≡ (g, none) → Leaves f.bytes f.synced g
unfolding seek_end
seek_end-Leaves f g h = call-Leaves f g f.answers h

pub sync-Leaves : (f g : File) → sync f ≡ (g, none) → Leaves f.bytes f.bytes g
unfolding sync
sync-Leaves f g h =
    let (f1, h1, h2) = ▷-eq-none (answer_call f f.answers) _ g h in
    let l = call-Leaves f f1 f.answers h1 in
    let m = Leaves-same (record f1 { synced = f1.bytes }) g none h2 in
    record {
      bytes_left = m.bytes_left ∙ l.bytes_left;
      durable_left = m.durable_left ∙ l.bytes_left;
    }

all_written :
    (n : ℕ) (bs : List ℕ)
    → (if ltb n (length bs) then some short_write else none) ≡ none
    → take n bs ≡ bs
all_written n bs h = elim (Bool-cases (ltb n (length bs))) [
  | inl t ↦ absurd (none-some (rw t at h))
  | inr t ↦ take_all n bs (ground (arith, t))
]

pub write_at-Leaves :
    (offset : ℕ) (bs : List ℕ) (f g : File)
    → write_at offset bs f ≡ (g, none)
    → Leaves (overwrite offset bs f.bytes) f.synced g
unfolding write_at
write_at-Leaves offset bs f g h = answered f.answers h
  where
    answered :
        (later : List Answer)
        → write_at_answered offset bs f later ≡ (g, none)
        → Leaves (overwrite offset bs f.bytes) f.synced g
    answered [] k = Leaves-same _ g none k
    answered (completes ∷ later) k = Leaves-same _ g none k
    answered (fails n ∷ later) k = absurd (none-some (ap (λ p. p.1) k))
    answered (writes n ∷ later) k =
        let e = all_written n bs (ap (λ (p : Done). p.1) k) in
        let l = Leaves-same _ g _ k in
        record {
          bytes_left = l.bytes_left ∙ ap (λ z. overwrite offset z f.bytes) e;
          durable_left = l.durable_left;
        }

overwrite_nothing : (hb : List ℕ) → overwrite 0 hb [] ≡ hb
overwrite_nothing hb = ap (λ z. hb ++ z) (drop_all (0 + length hb) [] (omega arith)) ∙ append-nil hb

overwrite_end : (hb cb : List ℕ) → overwrite (length hb) cb hb ≡ hb ++ cb
overwrite_end hb cb =
    ap (λ z. z ++ (cb ++ drop (length hb + length cb) hb)) (take_all (length hb) hb (omega arith))
    ∙ ap (λ z. hb ++ (cb ++ z)) (drop_all (length hb + length cb) hb (omega arith))
    ∙ ap (λ z. hb ++ z) (append-nil cb)

write_new-Leaves :
    (hb cb : List ℕ) (answers : List Answer) (g : File)
    → write_new hb cb (empty_file answers) ≡ (g, none)
    → Leaves (hb ++ cb) (hb ++ cb) g
unfolding write_new
write_new-Leaves hb cb answers g h =
    let (f3, h3, k3) = ▷-eq-none _ seek_end g h in
    let (f2, h2, k2) = ▷-eq-none _ sync f3 h3 in
    let (f1, h1, k1) =
      ▷-eq-none (write_at 0 hb (empty_file answers)) (write_at (length hb) cb) f2 h2 in
    let l1 = write_at-Leaves 0 hb (empty_file answers) f1 h1 in
    let l2 = write_at-Leaves (length hb) cb f1 f2 k1 in
    let l3 = sync-Leaves f2 f3 k2 in
    let l4 = seek_end-Leaves f3 g k3 in
    let first : f1.bytes ≡ hb = l1.bytes_left ∙ overwrite_nothing hb in
    let both : f2.bytes ≡ hb ++ cb =
      l2.bytes_left ∙ ap (overwrite (length hb) cb) first ∙ overwrite_end hb cb in
    record {
      bytes_left = l4.bytes_left ∙ l3.bytes_left ∙ both;
      durable_left = l4.durable_left ∙ l3.durable_left ∙ both;
    }

pub with_shutdown-IsTyped :
    (clean : Bool) (h : Header) → IsTyped h → IsTyped (with_shutdown clean h)
with_shutdown-IsTyped clean h t = record {
  size_fits = t.size_fits;
  count_fits = t.count_fits;
  format_fits = t.format_fits;
  version_fits = t.version_fits;
  layout_length = t.layout_length;
  quick_length = t.quick_length;
  capture_length = t.capture_length;
  catalog_length = t.catalog_length;
  job_length = t.job_length;
  creation_fits = t.creation_fits;
}

ok-same : {F : Type 0} (xs ys : List ℕ) → ◌≡◌ {A = Result F (List ℕ)} (ok xs) (ok ys) → xs ≡ ys
ok-same xs ys h = cc

ok-same_left :
    (xs ys zs ws : List ℕ)
    → ◌≡◌ {A = Result StoreError (List ℕ × List ℕ)} (ok (xs, ys)) (ok (zs, ws))
    → xs ≡ zs
ok-same_left xs ys zs ws h = cc

ok-same_right :
    (xs ys zs ws : List ℕ)
    → ◌≡◌ {A = Result StoreError (List ℕ × List ℕ)} (ok (xs, ys)) (ok (zs, ws))
    → ys ≡ ws
ok-same_right xs ys zs ws h = cc

-- What `Create` has ready: the front of the file, which is read back.
prepare_new-Front :
    (h : Header) (hb cb : List ℕ)
    → IsTyped h
    → prepare_new h ≡ ok (hb, cb)
    → Front hb cb (with_shutdown false h) no_records
unfolding prepare_new validate_header
prepare_new-Front h hb cb t e =
    let off = with_shutdown false h in
    let (v, e1) = >>-eq-ok (coded (validate_header h)) _ e in
    let (hb', e2, e3) = >>=-eq-ok (coded (marshal_header off)) _ e1 in
    let (cb', e4, e5) = >>=-eq-ok (coded (marshal_checkpoint no_records)) _ e3 in
    let (hb2, a1, a2, a3, _) =
      unmarshal_header-marshal_header off [] 0 (with_shutdown-IsTyped false h t)
        (coded-eq-ok _ tt v) (omega arith) in
    let (cb2, b1, b2) =
      unmarshal_checkpoint-marshal_checkpoint 0 0 no_records tt tt (omega arith) (omega arith) in
    let same : hb2 ≡ hb = ok-same _ _ (sym a1 ∙ coded-eq-ok _ hb' e2) ∙ ok-same_left _ _ _ _ e5 in
    let same_checkpoint : cb2 ≡ cb =
      ok-same _ _ (sym b1 ∙ coded-eq-ok _ cb' e4) ∙ ok-same_right _ _ _ _ e5 in
    record {
      header_size = ap length (sym same) ∙ a2;
      header_read = ap unmarshal_header (sym same ∙ sym (append-nil hb2)) ∙ a3;
      checkpoint_read = ap unmarshal_checkpoint (sym same_checkpoint) ∙ b2;
    }

not_created : {s : Store} → (e : StoreError) → refused e ≡ created s → ⊥
not_created e h = cc

not_abandoned : {s : Store} → (es : List StoreError) → abandoned es ≡ created s → ⊥
not_abandoned es h = cc

created-same : (r s : Store) → created r ≡ created s → r ≡ s
created-same r s h = cc

empty_replay : replay_records no_records 1 [] ≡ ok no_records
unfolding replay_records
empty_replay = refl

-- A new store over a file that holds a front and nothing else.
new_store-IsSound :
    (h : Header) (removal : Removal) (hb cb : List ℕ) (d : Done) (s : Store)
    → ((g : File) → d ≡ (g, none) → Leaves (hb ++ cb) (hb ++ cb) g)
    → new_store h removal d ≡ created s
    → IsSound no_records (hb ++ cb) s [] [] × (s.extents ≡ [])
new_store-IsSound h removal hb cb (f, some e) s w k = absurd (not_abandoned _ k)
new_store-IsSound h removal hb cb (f, none) s w k =
    let l = w f refl in
    subst (λ (r : Store). IsSound no_records (hb ++ cb) r [] [] × (r.extents ≡ []))
      (created-same _ s k)
      (
        record {
          in_use = refl;
          journal = [];
          journal_written = journal_of-nil;
          records_storable = tt;
          file_bytes = l.bytes_left ∙ sym (append-nil (hb ++ cb));
          file_synced = l.durable_left ∙ sym l.bytes_left;
          durable = no_records;
          replayed = empty_replay;
          durable_same = refl;
          pending_written = journal_of-nil;
          pending_count = refl;
          pending_storable = tt;
          advanced = refl;
          next_number = refl;
        },
        refl,
      )

create-unprepared :
    (h : Header) (answers : List Answer) (removal : Removal) (f : StoreError)
    → prepare_new h ≡ err f
    → create h answers removal ≡ refused f
unfolding create
create-unprepared h answers removal f p = rw (p, create)

create-unopened :
    (h : Header) (answers : List Answer) (removal : Removal) (hb cb : List ℕ) (f : StoreError)
    → prepare_new h ≡ ok (hb, cb)
    → open_file answers ≡ err f
    → create h answers removal ≡ refused f
unfolding create
create-unopened h answers removal hb cb f p o = rw (p, o, create)

create-ok :
    (h : Header) (answers : List Answer) (removal : Removal) (hb cb : List ℕ) (later : List Answer)
    → prepare_new h ≡ ok (hb, cb)
    → open_file answers ≡ ok later
    → create h answers removal
      ≡ new_store (with_shutdown false h) removal (write_new hb cb (empty_file later))
unfolding create
create-ok h answers removal hb cb later p o = rw (p, o, create)

-- The store that `Create` returns for a header whose fields fit their Go types is sound, with no
-- records and no transitions staged, behind a front of the file that is read back as the header,
-- marked as not shut down cleanly, and an empty checkpoint; it has no extents.
pub create-IsSound :
    (h : Header) (answers : List Answer) (removal : Removal) (s : Store)
    → IsTyped h
    → create h answers removal ≡ created s
    → (hb : List ℕ) × (cb : List ℕ) × Front hb cb (with_shutdown false h) no_records
      × IsSound no_records (hb ++ cb) s [] []
      × (s.extents ≡ [])
create-IsSound h answers removal s t e = elim (Result-cases (prepare_new h)) [
  | inl (f, p) ↦ absurd (not_created f (sym (create-unprepared h answers removal f p) ∙ e))
  | inr ((hb, cb), p) ↦ elim (Result-cases (open_file answers)) [
    | inl (f, o) ↦ absurd (not_created f (sym (create-unopened h answers removal hb cb f p o) ∙ e))
    | inr (later, o) ↦
        let written =
          new_store-IsSound (with_shutdown false h) removal hb cb
            (write_new hb cb (empty_file later)) s (write_new-Leaves hb cb later)
            (sym (create-ok h answers removal hb cb later p o) ∙ e) in
        (hb, cb, prepare_new-Front h hb cb t p, written.0, written.1)
  ]
]
