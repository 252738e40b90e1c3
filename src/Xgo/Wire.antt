-- ===== src/Xgo/Wire.antt =====
-- The frames on the wire: what `push_frame` writes, `scan_frame` reads back.
use sonny.Prelude.{
  ℕ, zero, suc, ◌+◌, ◌-◌, ◌≤◌, ◌≡◌, refl, sym, ap, ◌∙◌, true, false, List, [], ◌∷◌, ◌++◌, some, ltb,
  leb, ◌==◌, ==_iff, arith, length, get_elem?, take, drop, copy_into, copy_into-fits,
  overwrite-append, length-append, length-drop, take-append, drop-drop,
}
use mathlib.Core.List.{append_assoc}
use sonny.Xgo.{push_frame, checksum, frame, scan_frame, scan_body, check_frame, position}

-- A frame as its bytes.
abbrev pub wire : (mode addr : ℕ) → List ℕ → List ℕ
wire mode addr body =
    let total = length body + 8 in
    0x55 ∷ 0x00 ∷ total ∷ mode ∷ addr ∷ (body ++ (checksum total mode addr body ∷ 0x00 ∷ 0xAA ∷ []))

pub length-wire : (mode addr : ℕ) (body : List ℕ) → length (wire mode addr body) ≡ length body + 8
length-wire mode addr body =
    omega (arith, length-append body (checksum (length body + 8) mode addr body ∷ 0x00 ∷ 0xAA ∷ []))

module _ (out : List ℕ) where
  -- The buffer after its first bytes are written.
  abbrev front : List ℕ → List ℕ
  front done = done ++ drop (length done) out

  put_next :
      (done src : List ℕ) (at : ℕ)
      → at ≡ length done
      → length done + length src ≤ length out
      → copy_into (front done) at src ≡ some (front (done ++ src))
  put_next done src at e h = rw (
    e,
    copy_into-fits (front done) (length done) src
        (omega (arith, length-append done (drop (length done) out), length-drop (length done) out)),
    overwrite-append done src (drop (length done) out),
    drop-drop (length src) (length done) out,
    length-append done src,
  )

-- A frame that fits stands at the front of the buffer, and the rest of the buffer stays.
pub push_frame-wire :
    (out : List ℕ) (mode addr : ℕ) (body : List ℕ)
    → length body ≤ 247
    → length body + 8 ≤ length out
    → push_frame out mode addr body
      ≡ some (wire mode addr body ++ drop (length body + 8) out, length body + 8)
unfolding push_frame
push_frame-wire out mode addr body small fits =
    let total = length body + 8 in
    let head = 0x55 ∷ 0x00 ∷ total ∷ mode ∷ addr ∷ body in
    let chk = checksum total mode addr body in
    let h : length head ≡ 5 + length body = omega arith in
    let h1 : length (head ++ (chk ∷ [])) ≡ 6 + length body =
      omega (arith, length-append head (chk ∷ [])) in
    let h2 : length (head ++ (chk ∷ 0 ∷ [])) ≡ 7 + length body =
      omega (arith, length-append head (chk ∷ 0 ∷ [])) in
    let room : ltb (length out) total ≡ false = ground arith in
    let byte : ltb 255 total ≡ false = ground arith in
    let shape : ((head ++ (chk ∷ [])) ++ (0x00 ∷ [])) ++ (0xAA ∷ []) ≡ wire mode addr body =
      rw (append_assoc, append_assoc) refl in
    rw
      (
        room,
        byte,
        put_next out [] (0x55 ∷ []) 0 refl (omega arith),
        put_next out (0x55 ∷ []) (0x00 ∷ []) 1 refl (omega arith),
        put_next out (0x55 ∷ 0x00 ∷ []) (total ∷ []) 2 refl (omega arith),
        put_next out (0x55 ∷ 0x00 ∷ total ∷ []) (mode ∷ []) 3 refl (omega arith),
        put_next out (0x55 ∷ 0x00 ∷ total ∷ mode ∷ []) (addr ∷ []) 4 refl (omega arith),
        put_next out (0x55 ∷ 0x00 ∷ total ∷ mode ∷ addr ∷ []) body 5 refl (omega arith),
        put_next out head (chk ∷ []) (5 + length body) (sym h) (omega arith),
        put_next out (head ++ (chk ∷ [])) (0x00 ∷ []) (6 + length body) (sym h1) (omega arith),
        put_next out ((head ++ (chk ∷ [])) ++ (0x00 ∷ [])) (0xAA ∷ []) (7 + length body)
            (omega (arith, length-append (head ++ (chk ∷ [])) (0x00 ∷ [])))
            (omega (arith, length-append (head ++ (chk ∷ [])) (0x00 ∷ []))),
      )
      (ap (λ w. some (w ++ drop (length w) out, total)) shape
        ∙ ap (λ n. some (wire mode addr body ++ drop n out, total)) (length-wire mode addr body))

get_elem?-append :
    (xs ys : List ℕ) (i k : ℕ) → i ≡ length xs + k → get_elem? (xs ++ ys) i ≡ get_elem? ys k
get_elem?-append [] ys i k e = ap (get_elem? ys) (omega arith)
get_elem?-append (x ∷ xs) ys zero k e = absurd (omega arith)
get_elem?-append (x ∷ xs) ys (suc i) k e = get_elem?-append xs ys i k (omega arith)

position-header : (n : ℕ) (rest : List ℕ) → 2 ≤ n → position (take n (0x55 ∷ 0x00 ∷ rest)) ≡ some 0
unfolding position
position-header zero rest h = absurd (omega arith)
position-header (suc zero) rest h = absurd (omega arith)
position-header (suc (suc n)) rest h = refl

check_frame-wire :
    (mode addr : ℕ) (body rest : List ℕ)
    → check_frame (wire mode addr body ++ rest) (length body + 8)
      ≡ some (frame (length body + 8) addr (length body))
unfolding check_frame
check_frame-wire mode addr body rest =
    let total = length body + 8 in
    let chk = checksum total mode addr body in
    let head = 0x55 ∷ 0x00 ∷ total ∷ mode ∷ addr ∷ body in
    let ys = chk ∷ 0x00 ∷ 0xAA ∷ rest in
    let shape : wire mode addr body ++ rest ≡ head ++ ys = rw append_assoc refl in
    let n : total - 8 ≡ length body = omega arith in
    let inside : leb (5 + length body) (length (wire mode addr body ++ rest)) ≡ true =
      ground (arith, length-append (wire mode addr body) rest, length-wire mode addr body) in
    let same : (chk == chk) ≡ true = (==_iff chk chk).1 refl in
    let m : 5 + length body - 5 ≡ length body = omega arith in
    let five : leb 5 (5 + length body) ≡ true = ground arith in
    rw
      (
        shape,
        n,
        get_elem?-append head ys (5 + length body) 0 (omega arith),
        get_elem?-append head ys (total - 2) 1 (omega arith),
        get_elem?-append head ys (total - 1) 2 (omega arith),
        five,
        inside,
        m,
        take-append body ys,
        same,
      )
      refl

-- A frame with a body of 1 to 56 bytes is found at the front of the stream, whatever follows it: its
-- length, its register and the length of its body are read back.
pub scan_frame-wire :
    (mode addr : ℕ) (body rest : List ℕ)
    → 1 ≤ length body
    → length body ≤ 56
    → scan_frame (wire mode addr body ++ rest) ≡ some (frame (length body + 8) addr (length body))
unfolding scan_frame scan_body
scan_frame-wire mode addr body rest low high =
    let total = length body + 8 in
    let acc = wire mode addr body ++ rest in
    let long : total ≤ length acc =
      omega (arith, length-append (wire mode addr body) rest, length-wire mode addr body) in
    let a : ltb total 9 ≡ false = ground arith in
    let b : ltb 64 total ≡ false = ground arith in
    let c : ltb (length acc) total ≡ false = ground arith in
    let d : ltb (length acc) 3 ≡ false = ground arith in
    rw
      (
        scan_frame,
        position-header (length acc - 1) (drop 2 acc) (omega arith),
        scan_body,
        d,
        a,
        b,
        c,
      )
      (check_frame-wire mode addr body rest)
