-- ===== src/Tls/Record/Prefix.antt =====
-- The record loop of `sample` of probe.py reads the longest whole prefix.
use native.Mathlib.Decide.{dec_lt}
use project_veil.Prelude.{
  ℕ, zero, suc, ◌+◌, ◌-◌, ◌*◌, ◌≤◌, ◌<◌, ◌≡◌, refl, sym, ap, ap₂, ◌∙◌, subst, ◌⊎◌, inl, inr, List,
  [], ◌∷◌, ◌++◌, append-nil, append_assoc, map, arith, Bytes, length, drop, take, drop-drop,
  length-drop, length-take,
}
use project_veil.Tls.Record.{Record, Shape, length_at, byte_at, sample_loop, sample_records}
use project_veil.Tls.Record.Frames.{
  Frames, done, Header, header, IsPartial, length_at-header, drop-header, Frames-header,
}

abbrev pub shape : Record → Shape
shape (typ, payload) = (typ, length payload)

byte_at-drop : (wire : Bytes) (i : ℕ) → byte_at wire i ≡ byte_at (drop i wire) 0
unfolding byte_at
byte_at-drop [] zero = refl
byte_at-drop [] (suc i) = refl
byte_at-drop (b ∷ wire) zero = refl
byte_at-drop (b ∷ wire) (suc i) = byte_at-drop wire i

length_at-drop : (wire : Bytes) (i : ℕ) → length_at wire i ≡ length_at (drop i wire) 0
unfolding length_at
length_at-drop wire i = let e : i + 5 - (i + 3) ≡ 2 = omega arith in rw (e, ← drop-drop 3 i wire)

-- What the loop reads at an index with a whole header behind it.
module _ (wire : Bytes) (i typ v w hi lo : ℕ) (rest : Bytes)
    (e : drop i wire ≡ typ ∷ v ∷ w ∷ hi ∷ lo ∷ rest) where
  length_at_index : length_at wire i ≡ hi * 256 + lo
  length_at_index =
      length_at-drop wire i ∙ ap (λ t. length_at t 0) e ∙ length_at-header typ v w hi lo rest

  byte_at_index : byte_at wire i ≡ typ
  byte_at_index = byte_at-drop wire i ∙ ap (λ t. byte_at t 0) e ∙ unfold byte_at in refl

  drop_index : (n : ℕ) → drop (i + (5 + n)) wire ≡ drop n rest
  drop_index n =
      sym (drop-drop (5 + n) i wire) ∙ ap (drop (5 + n)) e ∙ drop-header typ v w hi lo n rest

  length_index : length wire - i ≡ 5 + length rest
  length_index = omega (arith, ap length e, length-drop i wire)

-- One round: the loop stops at a partial record, and else goes on behind the record.
sample_loop_step :
    (fuel : ℕ) (wire : Bytes) (i n : ℕ) (acc : List Shape)
    → n ≡ length_at wire i
    → i + 5 + n ≤ length wire
    → sample_loop (suc fuel) wire i acc
      ≡ sample_loop fuel wire (i + (5 + n)) (acc ++ (byte_at wire i, n) ∷ [])
unfolding sample_loop
sample_loop_step fuel wire i n acc e h = rw (← e) (ground arith)

sample_loop_stop :
    (fuel : ℕ) (wire : Bytes) (i : ℕ) (acc : List Shape)
    → (length wire < i + 5) ⊎ (length wire < i + 5 + length_at wire i)
    → sample_loop (suc fuel) wire i acc ≡ (acc, i)
unfolding sample_loop
sample_loop_stop fuel wire i acc h = ground arith

-- Where the loop stands, and what it has still to read.
abbrev Reads : Bytes → ℕ → List Shape → List Shape × ℕ → Type 0
Reads wire i acc result =
    (rs : List Record) × (result.0 ≡ acc ++ map shape rs)
    × Frames (drop i wire) rs (drop result.1 wire)
    × IsPartial (drop result.1 wire)
    × (result.1 ≤ length wire)

Reads-stop :
    (wire : Bytes) (i : ℕ) (acc : List Shape)
    → i ≤ length wire
    → IsPartial (drop i wire)
    → Reads wire i acc (acc, i)
Reads-stop wire i acc h p = ([], sym (append-nil acc), done refl, p, h)

Reads-next :
    (wire : Bytes) (i n : ℕ) (acc : List Shape) (result : List Shape × ℕ)
    → n ≡ length_at wire i
    → i + 5 + n ≤ length wire
    → Header (drop i wire)
    → Reads wire (i + (5 + n)) (acc ++ (byte_at wire i, n) ∷ []) result
    → Reads wire i acc result
Reads-next wire i n acc result e fits hd (rs, shapes, f, p, le) =
    let typ = hd.typ in
    let rest = hd.rest in
    let n_eq = e ∙ length_at_index wire i typ hd.v hd.w hd.hi hd.lo rest hd.shape in
    let room = length_index wire i typ hd.v hd.w hd.hi hd.lo rest hd.shape in
    let fits' : n ≤ length rest = omega arith in
    let size : length (take n rest) ≡ n = omega (arith, length-take n rest) in
    let head : (byte_at wire i, n) ≡ shape (typ, take n rest) =
      ap₂ (λ a b. (a, b)) (byte_at_index wire i typ hd.v hd.w hd.hi hd.lo rest hd.shape)
        (sym size) in
    let f' : Frames (drop n rest) rs (drop result.1 wire) =
      subst (λ t. Frames t rs (drop result.1 wire))
        (drop_index wire i typ hd.v hd.w hd.hi hd.lo rest hd.shape n) f in
    (
      (typ, take n rest) ∷ rs,
      shapes ∙ append_assoc acc _ _ ∙ ap (λ t. acc ++ t ∷ map shape rs) head,
      subst (λ t. Frames t ((typ, take n rest) ∷ rs) (drop result.1 wire)) (sym hd.shape)
          (Frames-header typ hd.v hd.w hd.hi hd.lo n rest _ rs n_eq fits' f'),
      p,
      le,
    )

sample_loop_lem :
    (fuel : ℕ) (wire : Bytes) (i : ℕ) (acc : List Shape)
    → i ≤ length wire
    → length wire ≤ fuel + i
    → Reads wire i acc (sample_loop fuel wire i acc)
sample_loop_lem zero wire i acc h m =
    unfold sample_loop in Reads-stop wire i acc h (inl (omega (arith, length-drop i wire)))
sample_loop_lem (suc fuel) wire i acc h m = elim (dec_lt (length wire) (i + 5)) [
  | yes short ↦
      rw (sample_loop_stop fuel wire i acc (inl short))
        (Reads-stop wire i acc h (inl (omega (arith, length-drop i wire))))
  | no long ↦ elim (dec_lt (length wire) (i + 5 + length_at wire i)) [
    | yes cut ↦
        rw (sample_loop_stop fuel wire i acc (inr cut))
          (Reads-stop wire i acc h (inr (omega (arith, length-drop i wire, length_at-drop wire i))))
    | no whole ↦
        let n = length_at wire i in
        let fits : i + 5 + n ≤ length wire = omega arith in
        let hd = header (drop i wire) (omega (arith, length-drop i wire)) in
        rw (sample_loop_step fuel wire i n acc refl fits) (
          Reads-next wire i n acc _ refl fits hd
            (sample_loop_lem fuel wire (i + (5 + n)) _ (omega arith) (omega arith)))
  ]
]

-- `sample` reads the longest prefix of the captured bytes that is whole records: what it reports
-- are the shapes of records that frame the bytes up to the index where it stops, and from there on
-- no whole record follows.
pub sample_records_lem :
    (wire : Bytes)
    → (rs : List Record) × ((sample_records wire).0 ≡ map shape rs)
      × Frames wire rs (drop (sample_records wire).1 wire)
      × IsPartial (drop (sample_records wire).1 wire)
      × ((sample_records wire).1 ≤ length wire)
unfolding sample_records
sample_records_lem wire = sample_loop_lem (length wire) wire 0 [] (omega arith) (omega arith)
