-- ===== src/AttrResize/Position.antt =====
-- Where `insert_attribute_sorted_typed` of src/attr_resize.rs puts a new attribute.
use rust_fs_ntfs.Base.{ℕ, zero, suc, ◌+◌, ◌≤◌, ◌<◌, ◌≡◌, ◌≢◌, refl, ap}
use rust_fs_ntfs.Base.{true, false, ltb, ◌==◌, if◌then◌else◌, List, [], ◌∷◌, ◌++◌}
use rust_fs_ntfs.Base.{Option, none, some, Result, ok, arith, get_le}
use native.Mathlib.Decide.{dec_lt}
use rust_fs_ntfs.AttrIo.{end_marker}
use rust_fs_ntfs.AttrResize.{AttrScan, ended, first_greater, scan_loop, pos_or}

-- Attributes of these types stand one behind the other from one offset up to another.
pub data Chain (r : List ℕ) : ℕ → List ℕ → ℕ → Type 0 where
  stop : (at : ℕ) → Chain r at [] at
  attr :
      (at type_code len : ℕ) (types : List ℕ) (end : ℕ)
      → get_le 4 r at ≡ ok type_code
      → type_code ≢ end_marker
      → type_code ≢ 0
      → get_le 4 r (at + 4) ≡ ok len
      → 8 ≤ len
      → Chain r (at + len) types end
      → Chain r at (type_code ∷ types) end

pub Chain-le : {r : List ℕ} {at end : ℕ} {types : List ℕ} → Chain r at types end → at ≤ end
Chain-le (stop at) = omega arith
Chain-le (attr at t len types end _ _ _ _ _ rest) = omega (arith, Chain-le rest)

pub Chain-append :
    {r : List ℕ} {a b c : ℕ} {ts us : List ℕ}
    → Chain r a ts b
    → Chain r b us c
    → Chain r a (ts ++ us) c
Chain-append (stop a) k = k
Chain-append (attr a t len ts b ht n m hl big rest) k =
    attr a t len _ _ ht n m hl big (Chain-append rest k)

-- The types with a new one before the first greater one.
unfoldable pub insert_type : ℕ → List ℕ → List ℕ
insert_type t [] = t ∷ []
insert_type t (u ∷ ts) = if ltb t u then t ∷ u ∷ ts else u ∷ insert_type t ts

-- A chain cut where a new attribute belongs.
pub data Cut (r : List ℕ) (at : ℕ) (types : List ℕ) (end t pos : ℕ) : Type 0 where
  cut :
      (before behind : List ℕ)
      → Chain r at before pos
      → Chain r pos behind end
      → insert_type t types ≡ before ++ t ∷ behind
      → Cut r at types end t pos

-- The scan once its position is set: it only looks for the end marker.
scan_loop-set :
    {r : List ℕ} (fuel : ℕ) {at end : ℕ} {types : List ℕ} (scan_end t pos : ℕ)
    → Chain r at types end
    → get_le 4 r end ≡ ok end_marker
    → end + 4 ≤ scan_end
    → end < fuel + at
    → scan_loop fuel r at scan_end t (some pos) ≡ ended (some end) (some pos)
unfolding scan_loop first_greater
scan_loop-set zero scan_end t pos chain marker near enough = absurd (omega (arith, Chain-le chain))
scan_loop-set (suc fuel) scan_end t pos (stop at) marker near enough =
    let within : ltb scan_end (at + 4) ≡ false = ground arith in rw (within, marker) refl
scan_loop-set (suc fuel) scan_end t pos (attr at u len types end hu n m hl big rest) marker near
      enough =
    let le = Chain-le rest in
    let within : ltb scan_end (at + 4) ≡ false = ground arith in
    let live : (u == end_marker) ≡ false = ground arith in
    let used : (u == 0) ≡ false = ground arith in
    let long : (len == 0) ≡ false = ground arith in
    let inside : ltb scan_end (at + len) ≡ false = ground arith in
    rw (within, hu, live, used, hl, long, inside)
      (scan_loop-set fuel scan_end t pos rest marker near (omega arith))

-- What the scan gives on a chain that the end marker follows: the marker, and a position at which
-- the chain is cut where the new attribute belongs.
pub data ScanOutcome (r : List ℕ) (at : ℕ) (types : List ℕ) (end t : ℕ) (m : Result AttrScan)
    : Type 0 where
  scanned :
      (insert_pos : Option ℕ)
      → m ≡ ended (some end) insert_pos
      → Cut r at types end t (pos_or insert_pos end)
      → ScanOutcome r at types end t m

pub scan_loop-Cut :
    {r : List ℕ} (fuel : ℕ) {at end : ℕ} {types : List ℕ} (scan_end t : ℕ)
    → Chain r at types end
    → get_le 4 r end ≡ ok end_marker
    → end + 4 ≤ scan_end
    → end < fuel + at
    → ScanOutcome r at types end t (scan_loop fuel r at scan_end t none)
unfolding scan_loop first_greater insert_type pos_or
scan_loop-Cut zero scan_end t chain marker near enough = absurd (omega (arith, Chain-le chain))
scan_loop-Cut (suc fuel) scan_end t (stop at) marker near enough =
    let within : ltb scan_end (at + 4) ≡ false = ground arith in
    rw (within, marker) (scanned none refl (cut [] [] (stop at) (stop at) refl))
scan_loop-Cut (suc fuel) scan_end t (attr at u len types end hu n m hl big rest) marker near
      enough =
    let le = Chain-le rest in
    let within : ltb scan_end (at + 4) ≡ false = ground arith in
    let live : (u == end_marker) ≡ false = ground arith in
    let used : (u == 0) ≡ false = ground arith in
    let long : (len == 0) ≡ false = ground arith in
    let inside : ltb scan_end (at + len) ≡ false = ground arith in
    rw (within, hu, live, used, hl, long, inside)
      (elim (dec_lt t u) [
        | yes lt ↦
            let here : ltb t u ≡ true = ground arith in
            rw here (
              scanned (some at) (scan_loop-set fuel scan_end t at rest marker near (omega arith)) (
                cut [] (u ∷ types) (stop at) (attr at u len types end hu n m hl big rest)
                  (rw here refl)))
        | no ge ↦
            let on : ltb t u ≡ false = ground arith in
            rw on (elim (scan_loop-Cut fuel scan_end t rest marker near (omega arith)) [
              | scanned ins done (cut before behind first last e) ↦ scanned ins done (
                  cut (u ∷ before) behind (attr at u len before _ hu n m hl big first) last
                    (rw on (ap (λ ts. u ∷ ts) e)))
            ])
      ])
