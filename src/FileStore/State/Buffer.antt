-- ===== src/FileStore/State/Buffer.antt =====
-- FileStore.h: `append_buffer` and `flush_buffer` write every byte once and in order.
use micro_store.Base.{
  ℕ, zero, suc, ◌-◌, ◌≤◌, ◌<◌, min, ◌≡◌, ◌≢◌, refl, ap, sym, ◌∙◌, true, false, some, List, [], ◌∷◌,
  ◌++◌, arith, length, take, drop, length-append, length-take, length-drop, ◌==◌, if◌then◌else◌,
  Bool-cases, inl, inr,
}
use mathlib.Core.List.{append_assoc, append-nil}
use micro_store.FileStore.Layout.{write_buffer_size}
use micro_store.FileStore.Files.{FilePath, FileSystem}
use micro_store.FileStore.Files.Lawful.{IsLawful}
use micro_store.FileStore.State.{FileStore, flush_to, flush_buffer, append_loop, append_buffer}

take-append-drop : (n : ℕ) (xs : List ℕ) → take n xs ++ drop n xs ≡ xs
take-append-drop zero xs = refl
take-append-drop (suc n) [] = refl
take-append-drop (suc n) (x ∷ xs) = ap (◌∷◌ x) (take-append-drop n xs)

nil_of_length : (xs : List ℕ) → (length xs == 0) ≡ true → xs ≡ []
nil_of_length [] h = refl
nil_of_length (x ∷ xs) h = ground arith

module _ {D : Type 0} (fs : FileSystem D) where
  -- The file `p` and the buffer together hold the bytes `total`.
  pub record Holds (p : FilePath) (total : List ℕ) (s : FileStore D) : Type 0 where
    pub active : s.active_file ≡ some p
    pub written : List ℕ
    pub on_disk : fs.open_read s.disk p ≡ some written
    pub total_is : written ++ s.write_buf ≡ total

  -- Likewise, and the buffer has room.
  pub record Pending (p : FilePath) (total : List ℕ) (s : FileStore D) : Type 0 where
    pub holds : Holds p total s
    pub open holds use *
    pub room : length s.write_buf < write_buffer_size

  -- Nothing but the buffer and the file `p` differs between the two states.
  pub record Frame (p : FilePath) (s t : FileStore D) : Type 0 where
    pub fields : t ≡ record s { disk = t.disk; write_buf = t.write_buf }
    pub others : (q : FilePath) → p ≢ q → fs.open_read t.disk q ≡ fs.open_read s.disk q

  module _ (law : IsLawful fs) (p : FilePath) where
    flush_to-Holds :
        {total : List ℕ} (s : FileStore D)
        → Holds p total s
        → (fs.open_read (flush_to fs s (some p)).0.disk p ≡ some total)
          × Frame p s (flush_to fs s (some p)).0
    unfolding flush_to
    flush_to-Holds s h = (
      law.write_self s.disk p s.write_buf h.written h.on_disk ∙ ap some h.total_is,
      record { fields = refl; others = λ q ne. law.write_other s.disk p q s.write_buf ne },
    )

    -- After a flush the file alone holds the bytes, and nothing else changed.
    pub flush_buffer-Holds :
        {total : List ℕ} (s : FileStore D)
        → Holds p total s
        → ((flush_buffer fs s).1 ≡ true)
          × (fs.open_read (flush_buffer fs s).0.disk p ≡ some total)
          × ((flush_buffer fs s).0.write_buf ≡ [])
          × Frame p s (flush_buffer fs s).0
    unfolding flush_buffer
    flush_buffer-Holds s h = elim (Bool-cases (length s.write_buf == 0)) [
      | inl e ↦
          let empty = nil_of_length s.write_buf e in
          rw e (
            refl,
            h.on_disk
                ∙ ap some (
                    sym (append-nil h.written)
                    ∙ (ap (λ b. h.written ++ b) (sym empty) ∙ h.total_is)),
            empty,
            record { fields = refl; others = λ q ne. refl },
          )
      | inr e ↦
          let opened : flush_buffer fs s ≡ flush_to fs s (some p) =
            rw (e, flush_buffer) (ap (flush_to fs s) h.active) in
          rw opened
            (unfold flush_to in (refl, (flush_to-Holds s h).0, refl, (flush_to-Holds s h).1))
    ]

    Frame-refl : (s : FileStore D) → Frame p s s
    Frame-refl s = record { fields = refl; others = λ q ne. refl }

    pub Frame-trans : {s t u : FileStore D} → Frame p s t → Frame p t u → Frame p s u
    Frame-trans {s} {t} {u} f g = record {
      fields =
          g.fields
          ∙ ap (λ (x : FileStore D). record x { disk = u.disk; write_buf = u.write_buf }) f.fields;
      others = λ q ne. g.others q ne ∙ f.others q ne;
    }

    -- One round of the loop.
    fill : FileStore D → List ℕ → FileStore D
    fill s bytes = record s {
      write_buf =
          s.write_buf ++ take (min (length bytes) (write_buffer_size - length s.write_buf)) bytes;
    }

    round : FileStore D → List ℕ → FileStore D
    round s bytes =
        if length (fill s bytes).write_buf == write_buffer_size
        then (flush_buffer fs (fill s bytes)).0
        else fill s bytes

    fill-Holds :
        {total : List ℕ} (s : FileStore D) (bytes : List ℕ)
        → Pending p total s
        → Holds p
            (total ++ take (min (length bytes) (write_buffer_size - length s.write_buf)) bytes)
            (fill s bytes)
          × Frame p s (fill s bytes)
    unfolding fill
    fill-Holds s bytes h = (
      record {
        active = h.active;
        written = h.written;
        on_disk = h.on_disk;
        total_is =
            sym (append_assoc h.written s.write_buf _)
            ∙ ap
                (λ b. b ++ take (min (length bytes) (write_buffer_size - length s.write_buf)) bytes)
                h.total_is;
      },
      record { fields = refl; others = λ q ne. refl },
    )

    fill_room :
        {total : List ℕ} (s : FileStore D) (bytes : List ℕ)
        → Pending p total s
        → (length (fill s bytes).write_buf == write_buffer_size) ≡ false
        → length (fill s bytes).write_buf < write_buffer_size
    unfolding fill
    fill_room s bytes h more =
        let n = min (length bytes) (write_buffer_size - length s.write_buf) in
        ground (arith, h.room, length-append s.write_buf (take n bytes), length-take n bytes)

    round-Pending :
        {total : List ℕ} (s : FileStore D) (bytes : List ℕ)
        → Pending p total s
        → Pending p
            (total ++ take (min (length bytes) (write_buffer_size - length s.write_buf)) bytes)
            (round s bytes)
          × Frame p s (round s bytes)
    unfolding round
    round-Pending {total} s bytes h =
        let part = take (min (length bytes) (write_buffer_size - length s.write_buf)) bytes in
        let filled = fill-Holds s bytes h in
        let (ok, disk, empty, frame) = flush_buffer-Holds (fill s bytes) filled.0 in
        elim (Bool-cases (length (fill s bytes).write_buf == write_buffer_size)) [
          | inl full ↦
              let done : round s bytes ≡ (flush_buffer fs (fill s bytes)).0 = rw (full, round) in
              rw done (
                record {
                  holds = record {
                    active = ap (λ (x : FileStore D). x.active_file) frame.fields ∙ filled.0.active;
                    written = total ++ part;
                    on_disk = disk;
                    total_is = ap (λ b. (total ++ part) ++ b) empty ∙ append-nil (total ++ part);
                  };
                  room = omega (arith, ap length empty);
                },
                Frame-trans filled.1 frame,
              )
          | inr more ↦
              let done : round s bytes ≡ fill s bytes = rw (more, round) in
              rw done (record { holds = filled.0; room = fill_room s bytes h more }, filled.1)
        ]

    append_loop-Pending :
        (fuel : ℕ) {total : List ℕ} (s : FileStore D) (bytes : List ℕ)
        → length bytes ≤ fuel
        → Pending p total s
        → Pending p (total ++ bytes) (append_loop fs fuel s bytes)
          × Frame p s (append_loop fs fuel s bytes)
    unfolding append_loop round fill
    append_loop-Pending zero s [] le h = (rw append-nil h, Frame-refl s)
    append_loop-Pending zero s (b ∷ bs) le h = absurd (omega arith)
    append_loop-Pending (suc f) s [] le h = (rw append-nil h, Frame-refl s)
    append_loop-Pending (suc f) {total} s (b ∷ bs) le h =
        let n = min (length (b ∷ bs)) (write_buffer_size - length s.write_buf) in
        let (first, frame) = round-Pending s (b ∷ bs) h in
        let (all, rest) =
          append_loop-Pending f (round s (b ∷ bs)) (drop n (b ∷ bs))
            (omega (arith, length-drop n (b ∷ bs), h.room)) first in
        let whole : (total ++ take n (b ∷ bs)) ++ drop n (b ∷ bs) ≡ total ++ b ∷ bs =
          append_assoc total (take n (b ∷ bs)) (drop n (b ∷ bs))
          ∙ ap (λ x. total ++ x) (take-append-drop n (b ∷ bs)) in
        (rw whole at all, Frame-trans frame rest)

    -- On a disk with room, with the file `p` active and room in the buffer, `append_buffer` puts all
    -- the bytes behind what the file and the buffer hold together, leaves room in the buffer, and
    -- changes nothing but these two.
    pub append_buffer-Pending :
        {total : List ℕ} (s : FileStore D) (bytes : List ℕ)
        → Pending p total s
        → Pending p (total ++ bytes) (append_buffer fs s bytes)
          × Frame p s (append_buffer fs s bytes)
    unfolding append_buffer
    append_buffer-Pending s bytes h = append_loop-Pending (length bytes) s bytes (omega arith) h
