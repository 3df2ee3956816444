-- ===== src/SampleTables/Gives.antt =====
-- What the steps of a page give, and how many table reads they count.
use stream_view.Common.{
  ℕ, ◌≤◌, ◌≡◌, refl, Option, none, some, Bool, Bool-cases, true, false, inl, inr, String, leb,
  arith,
}
use stream_view.SampleTables.{Answer, ok, refused, Mp4SampleTableIndexStatus}
use stream_view.SampleTables.Chunks.{Reads, resume, ◌>>=◌, ◌>>◌, refuse_if, table_read}
use stream_view.SampleTables.Overflow.{OkAll, every-OkAll}

-- Of every value that a step gives, however many reads came before.
abbrev pub Gives {ℓ κ} : {A : Type ℓ} → (A → Type κ) → Reads A → Type κ
Gives P m = (reads : ℕ) → OkAll P (m reads).1

resume-OkAll {ℓ κ ι τ} :
    {A : Type ℓ} {B : Type κ} (Q : A → Type ι) (P : B → Type τ) (f : A → Reads B)
    (result : ℕ × Answer A)
    → OkAll Q result.1
    → ((a : A) → Q a → Gives P (f a))
    → OkAll P (resume result f).1
unfolding OkAll
resume-OkAll Q P f (reads, ok a) q h = h a q reads
resume-OkAll Q P f (reads, refused status message) q h = tt

pub bind-Gives {ℓ κ ι τ} :
    {A : Type ℓ} {B : Type κ} (Q : A → Type ι) (P : B → Type τ) (m : Reads A) (f : A → Reads B)
    → Gives Q m
    → ((a : A) → Q a → Gives P (f a))
    → Gives P (m >>= f)
bind-Gives Q P m f q h reads = resume-OkAll Q P f (m reads) (q reads) h

-- A step of which nothing is known.
pub skip-Gives {ℓ κ τ} :
    {A : Type ℓ} {B : Type κ} (P : B → Type τ) (m : Reads A) (f : A → Reads B)
    → ((a : A) → Gives P (f a))
    → Gives P (m >>= f)
skip-Gives P m f h =
    bind-Gives (λ _. Unit {0}) P m f (λ reads. every-OkAll _ (m reads).1 (λ _. tt)) (λ a _. h a)

pub refuse_if-Gives {ℓ κ} :
    {A : Type ℓ} (P : A → Type κ) (b : Bool) (status : Mp4SampleTableIndexStatus) (message : String)
    (k : Reads A)
    → (b ≡ false → Gives P k)
    → Gives P (refuse_if b status message >> k)
unfolding OkAll
refuse_if-Gives P true status message k h reads = tt
refuse_if-Gives P false status message k h reads = h refl reads

-- Of steps that stay within a budget of reads.
abbrev pub Bounded {ℓ} : {A : Type ℓ} → ℕ → Reads A → Type 0
Bounded maximum m = (reads : ℕ) → reads ≤ maximum → (m reads).0 ≤ maximum

resume-Bounded {ℓ κ} :
    {A : Type ℓ} {B : Type κ} (maximum : ℕ) (f : A → Reads B) (result : ℕ × Answer A)
    → result.0 ≤ maximum
    → ((a : A) → Bounded maximum (f a))
    → (resume result f).0 ≤ maximum
resume-Bounded maximum f (reads, ok a) few h = h a reads few
resume-Bounded maximum f (reads, refused status message) few h = few

pub bind-Bounded {ℓ κ} :
    {A : Type ℓ} {B : Type κ} (maximum : ℕ) (m : Reads A) (f : A → Reads B)
    → Bounded maximum m
    → ((a : A) → Bounded maximum (f a))
    → Bounded maximum (m >>= f)
bind-Bounded maximum m f first rest reads few =
    resume-Bounded maximum f (m reads) (first reads few) rest

-- A step that reads no table.
pub unread-Bounded : (maximum reads : ℕ) → reads ≤ maximum → reads ≤ maximum
unread-Bounded maximum reads few = few

pub table_read-Bounded {ℓ} :
    {A : Type ℓ} (maximum : ℕ) (reader : Option (ℕ → Option A)) (entry : ℕ) (message : String)
    → Bounded maximum (table_read maximum reader entry message)
unfolding table_read
table_read-Bounded maximum none entry message reads few = elim (Bool-cases (leb maximum reads)) [
  | inl e ↦ rw e few
  | inr e ↦ rw e (ground (arith, e))
]
table_read-Bounded maximum (some read) entry message reads few =
    elim (Bool-cases (leb maximum reads)) [ inl e ↦ rw e few | inr e ↦ rw e (ground (arith, e)) ]

pub refuse_if-Bounded {ℓ} :
    {A : Type ℓ} (maximum : ℕ) (b : Bool) (status : Mp4SampleTableIndexStatus) (message : String)
    (k : Reads A)
    → Bounded maximum k
    → Bounded maximum (refuse_if b status message >> k)
refuse_if-Bounded maximum true status message k rest reads few = few
refuse_if-Bounded maximum false status message k rest reads few = rest reads few
