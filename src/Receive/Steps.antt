-- ===== src/Receive/Steps.antt =====
-- receiver.c: what the receiving loop makes of each kind of token, with a basis file that is not the file
-- written.
use rsync_wrapper.Prelude.{ℕ, zero, suc, ◌+◌, ◌-◌, ◌≤◌, ◌<◌, ◌≡◌, refl, arith, min, ap, ◌∙◌}
use rsync_wrapper.Prelude.{true, false, Bytes, [], ◌∷◌, ◌++◌, length, take, drop, replicate, some}
use native.Mathlib.Nat.{add_assoc, zero-add}
use rsync_wrapper.Prelude.{ok, append-nil, length-append}
use rsync_wrapper.Prelude.Int.{ℤ, pos, negsuc}
use rsync_wrapper.Io.Word.{write_int}
use rsync_wrapper.Io.Word.Laws.{length-sival, read_buf-append, read_int-write_int}
use rsync_wrapper.Io.SumHead.{SumHead}
use rsync_wrapper.Token.{chunk_size, simple_recv_token}
use rsync_wrapper.Receive.{
  Job, Receiver, write_at, receive_token, receive_loop, is_end, take_literal, put_data,
}

drop_nil : (n : ℕ) → drop {A = ℕ} n [] ≡ []
drop_nil zero = refl
drop_nil (suc n) = refl

take_all : (w : Bytes) → take (length w) w ≡ w
take_all [] = refl
take_all (x ∷ w) = ap (x ∷◌) (take_all w)

drop_all : (w d : Bytes) → drop (length w + length d) w ≡ []
drop_all [] d = drop_nil (0 + length d)
drop_all (x ∷ w) d =
    let e : suc (length w) + length d ≡ suc (length w + length d) = omega arith in
    rw e (drop_all w d)

replicate_none : (w : Bytes) → replicate {A = ℕ} (length w - length w) 0 ≡ []
replicate_none w = let e : length w - length w ≡ 0 = omega arith in rw e refl

pub write_at_end :
    (dest w d : Bytes) (position : ℕ)
    → dest ≡ w
    → position ≡ length w
    → write_at dest position d ≡ w ++ d
unfolding write_at
write_at_end dest w d position e e' =
    rw (e, e') (simp (take_all w, drop_all w d, replicate_none w, append-nil) refl)

module _ (job : Job) (sum : SumHead) (basis : Bytes) where
  -- A file of its own is written, and the basis is there.
  pub record IsPlain : Type 0 where
    pub fresh : job.updating ≡ false
    pub writes : job.writing ≡ true
    pub mapped : job.basis ≡ some basis

  -- The receiver has written `w`, and stands between two tokens.
  pub record HasWritten (w : Bytes) (r : Receiver) : Type 0 where
    pub between : r.residue ≡ 0
    pub at : r.offset ≡ length w
    pub cursor : r.position ≡ length w
    pub file : r.dest ≡ w
    pub heard : r.summed ≡ w

  -- The loop gets from one state and input to another, in no more rounds than bytes are taken.
  pub record Advances (bs : Bytes) (r : Receiver) (bs' : Bytes) (r' : Receiver) : Type 0 where
    pub rounds : ℕ
    pub few : rounds + length bs' ≤ length bs
    pub runs : (f : ℕ) → receive_loop (rounds + f) job sum r bs ≡ receive_loop f job sum r' bs'

  -- From `w` written, on the input `bs`, the receiver gets to `w'` written, with `bs'` to come.
  pub record Gets (w bs w' bs' : Bytes) : Type 0 where
    pub get :
        (r : Receiver) → HasWritten w r → (r' : Receiver) × HasWritten w' r' × Advances bs r bs' r'

  pub Gets-trans :
      {w bs w' bs' w'' bs'' : Bytes} → Gets w bs w' bs' → Gets w' bs' w'' bs'' → Gets w bs w'' bs''
  Gets-trans {bs = bs} {bs'' = bs''} g h = record {
    get = λ r p.
        let (r1, p1, a1) = g.get r p in
        let (r2, p2, a2) = h.get r1 p1 in
        (
          r2,
          p2,
          record {
            rounds = a1.rounds + a2.rounds;
            few = omega (arith, a1.few, a2.few);
            runs = λ f. rw (add_assoc) (a1.runs (a2.rounds + f) ∙ a2.runs f);
          },
        );
  }

  pub Gets-refl : (w bs : Bytes) → Gets w bs w bs
  Gets-refl w bs = record {
    get = λ r p. (r, p, record { rounds = 0; few = omega arith; runs = λ f. rw zero-add refl });
  }

  pub one_round :
      {bs bs' : Bytes} {r r' : Receiver}
      → length bs' < length bs
      → ((f : ℕ) → receive_loop (suc f) job sum r bs ≡ receive_loop f job sum r' bs')
      → Advances bs r bs' r'
  one_round h e = record {
    rounds = 1;
    few = omega arith;
    runs = λ f. let s : 1 + f ≡ suc f = omega arith in rw s (e f);
  }

  recv_literal_whole :
      (d rest : Bytes) (n : ℕ)
      → length d ≡ suc n
      → suc n ≤ chunk_size
      → simple_recv_token 0 (write_int (pos (suc n)) ++ (d ++ rest))
        ≡ ok (record { value = pos (suc n); content = d; residue = 0 }, rest)
  unfolding simple_recv_token
  recv_literal_whole d rest n hd hn =
      let whole : min chunk_size (suc n) ≡ suc n = omega arith in
      let left : suc n - suc n ≡ 0 = omega arith in
      rw
        (
          read_int-write_int (pos (suc n)) (d ++ rest) (omega arith),
          whole,
          left,
          rw hd at (read_buf-append d rest),
        )
        refl

  pub round_of :
      (r : Receiver) (bs rest d : Bytes) (v : ℤ) {r' : Receiver}
      → r.residue ≡ 0
      → simple_recv_token 0 bs ≡ ok (record { value = v; content = d; residue = 0 }, rest)
      → is_end v ≡ false
      → receive_token job sum v d (record r { residue = 0 }) ≡ ok r'
      → (f : ℕ) → receive_loop (suc f) job sum r bs ≡ receive_loop f job sum r' rest
  unfolding receive_loop
  round_of r bs rest d v between e more e' f = ground arith

  pub length_int : (x : ℤ) → length (write_int x) ≡ 4
  unfolding write_int
  length_int x = length-sival _

  literal_written :
      (w d : Bytes) (r : Receiver)
      → IsPlain
      → HasWritten w r
      → HasWritten (w ++ d) (take_literal job (length d) d (record r { residue = 0 }))
  unfolding take_literal put_data
  literal_written w d r plain p = record {
    between = ground arith;
    at = ground (arith, length-append w d);
    cursor = ground (arith, length-append w d);
    file = ground (arith, write_at_end r.dest w d r.position);
    heard = ground arith;
  }

  literal_goes_on : (n : ℕ) → is_end (pos (suc n)) ≡ false
  unfolding is_end
  literal_goes_on n = refl

  pub block_goes_on : (i : ℕ) → is_end (negsuc i) ≡ false
  unfolding is_end
  block_goes_on i = refl

  literal_received :
      (n : ℕ) (d : Bytes) (r : Receiver)
      → receive_token job sum (pos n) d r ≡ ok (take_literal job n d r)
  unfolding receive_token
  literal_received n d r = refl

  pub Gets-literal :
      (w d rest : Bytes) (n : ℕ)
      → IsPlain
      → length d ≡ suc n
      → suc n ≤ chunk_size
      → Gets w (write_int (pos (suc n)) ++ (d ++ rest)) (w ++ d) rest
  Gets-literal w d rest n plain hd hn = record {
    get = λ r p. (
      take_literal job (suc n) d (record r { residue = 0 }),
      rw hd at (literal_written w d r plain p),
      one_round
          (omega (
            arith,
            length-append (write_int (pos (suc n))) (d ++ rest),
            length-append d rest,
            length_int (pos (suc n)),
          ))
          (round_of r _ rest d (pos (suc n)) p.between (recv_literal_whole d rest n hd hn)
            (literal_goes_on n) (literal_received (suc n) d _)),
    );
  }
