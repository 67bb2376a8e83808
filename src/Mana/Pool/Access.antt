-- ===== src/Mana/Pool/Access.antt =====
-- Reading after writing, and what the operations do to the whole pool.
use Prim.Native.String.{String}
use uud.Base.Int.{ℤ, ◌+ℤ◌, ◌-ℤ◌, ◌≤ℤ◌, int_laws, pos}
use uud.Base.{
  if◌then◌else◌, Bool-cases, Option-cases, ◌≡◌, refl, ◌∙◌, ◌↔◌, ◌⊎◌, inl, inr, Bool, true, false,
  not, Option, none, some, arith,
}
use uud.Mana.Color.{ManaColor, same_color}
use uud.Mana.Pool.{
  ManaPool, ManaPayment, color_field, field, set_field, geb_ℤ, add, can_pay, spend, get, total,
  exceeds, pay_cost,
}

-- Two names of one field.
abbrev pub names_field : Option ManaColor → Option ManaColor → Bool
names_field none d = false
names_field (some c) none = false
names_field (some c) (some d) = same_color c d

pub field-set_field :
    (c d : ManaColor) (n : ℤ) (p : ManaPool)
    → field d (set_field c n p) ≡ (if same_color c d then n else field d p)
field-set_field c d n p = ground arith

pub same_color-eq : (c d : ManaColor) → same_color c d ≡ true → c ≡ d
same_color-eq ManaColor.white ManaColor.white h = refl
same_color-eq _ _ h = ground arith

abbrev read : Option ManaColor → ManaPool → ℤ
read none p = pos 0
read (some c) p = field c p

read-set_field :
    (c : ManaColor) (b : Option ManaColor) (n : ℤ) (p : ManaPool)
    → read b (set_field c n p) ≡ (if names_field (some c) b then n else read b p)
read-set_field c none n p = refl
read-set_field c (some d) n p = field-set_field c d n p

same_read :
    (c : ManaColor) (b : Option ManaColor) (f : ℤ → ℤ) (p : ManaPool)
    → (if names_field (some c) b then f (field c p) else read b p)
      ≡ (if names_field (some c) b then f (read b p) else read b p)
same_read c none f p = refl
same_read c (some d) f p = ground arith

get-read : (color : String) (p : ManaPool) → get color p ≡ read (color_field color) p
unfolding get
get-read color p = ground arith

-- `add` with a known color changes that field alone, by the amount, whichever of its two names is
-- used to read it; with an unknown color it does nothing.
pub get-add :
    (color other : String) (amount : ℤ) (p : ManaPool)
    → get other (add color amount p) ≡ (
        if names_field (color_field color) (color_field other)
        then get other p +ℤ amount
        else get other p)
unfolding add
get-add color other amount p =
    rw (get-read other p, get-read other (add color amount p))
      (elim (Option-cases (color_field color)) [
        | inl e ↦ rw (e, add)
        | inr (c, e) ↦
            rw (e, add)
              (read-set_field c (color_field other) (field c p +ℤ amount) p
                ∙ same_read c (color_field other) (λ n. n +ℤ amount) p)
      ])

spend_refused :
    (color : String) (amount : ℤ) (p : ManaPool)
    → can_pay color amount p ≡ false
    → spend color amount p ≡ (p, false)
unfolding spend
spend_refused color amount p h = ground arith

can_pay_known :
    (color : String) (amount : ℤ) (p : ManaPool) (c : ManaColor)
    → color_field color ≡ some c
    → can_pay color amount p ≡ geb_ℤ (field c p) amount
unfolding can_pay
can_pay_known color amount p c e = rw (e, can_pay)

spend_known :
    (color : String) (amount : ℤ) (p : ManaPool) (c : ManaColor)
    → color_field color ≡ some c
    → spend color amount p ≡ (
        if not (geb_ℤ (field c p) amount)
        then (p, false)
        else (set_field c (field c p -ℤ amount) p, true))
unfolding spend
spend_known color amount p c e = rw (e, spend, can_pay_known color amount p c e)

spend_paid :
    (color : String) (amount : ℤ) (p : ManaPool)
    → can_pay color amount p ≡ true
    → (c : ManaColor) × (color_field color ≡ some c)
      × (geb_ℤ (field c p) amount ≡ true)
      × (spend color amount p ≡ (set_field c (field c p -ℤ amount) p, true))
unfolding spend can_pay
spend_paid color amount p h = elim (Option-cases (color_field color)) [
  | inl e ↦ absurd (ground arith)
  | inr (c, e) ↦
      let k : geb_ℤ (field c p) amount ≡ true = ground arith in
      (c, e, k, spend_known color amount p c e ∙ rw k)
]

pub geb_ℤ→le : (a b : ℤ) → geb_ℤ a b ≡ true → b ≤ℤ a
geb_ℤ→le a b h = ground arith

-- The name is that of a field, and this field has at least the amount.
abbrev pub Holds : String → ℤ → ManaPool → Type 0
Holds color amount p = (c : ManaColor) × (color_field color ≡ some c) × (amount ≤ℤ field c p)

pub le→geb_ℤ : (a b : ℤ) → b ≤ℤ a → geb_ℤ a b ≡ true
le→geb_ℤ a b h = ground arith

Holds-can_pay :
    (color : String) (amount : ℤ) (p : ManaPool)
    → Holds color amount p
    → can_pay color amount p ≡ true
Holds-can_pay color amount p (c, e, fits) =
    can_pay_known color amount p c e ∙ le→geb_ℤ (field c p) amount fits

-- When the color is known and its field has at least the amount, `can_pay` says so and `spend`
-- succeeds: it takes the amount from that field alone, whichever of its two names is used to read
-- it. Otherwise `can_pay` refuses, and `spend` fails and leaves the pool as it is.
pub get-spend :
    (color other : String) (amount : ℤ) (p : ManaPool)
    → (Holds color amount p
        × (can_pay color amount p ≡ true)
        × ((spend color amount p).1 ≡ true)
        × (get other (spend color amount p).0 ≡ (
            if names_field (color_field color) (color_field other)
            then get other p -ℤ amount
            else get other p)))
      ⊎ ((¬ Holds color amount p)
          × (can_pay color amount p ≡ false)
          × (spend color amount p ≡ (p, false)))
get-spend color other amount p = elim (Bool-cases (can_pay color amount p)) [
  | inl h ↦
      let (c, e, fits, q) = spend_paid color amount p h in
      inl (
        (c, e, geb_ℤ→le (field c p) amount fits),
        h,
        rw q refl,
        rw (get-read other p, get-read other (spend color amount p).0, q, e)
            (read-set_field c (color_field other) (field c p -ℤ amount) p
              ∙ same_read c (color_field other) (λ n. n -ℤ amount) p),
      )
  | inr h ↦
      inr (
        λ holds. absurd (cc (Holds-can_pay color amount p holds)),
        h,
        spend_refused color amount p h,
      )
]

-- No field is below zero.
abbrev pub IsNonneg : ManaPool → Type 0
IsNonneg p = (c : ManaColor) → pos 0 ≤ℤ field c p

pub set_field-IsNonneg :
    (c : ManaColor) (n : ℤ) (p : ManaPool) → pos 0 ≤ℤ n → IsNonneg p → IsNonneg (set_field c n p)
set_field-IsNonneg c n p h v d = rw (field-set_field c d n p) (ground (arith, v d))

-- `spend` of any amount leaves no field below zero.
spend-IsNonneg :
    (color : String) (amount : ℤ) (p : ManaPool) → IsNonneg p → IsNonneg (spend color amount p).0
spend-IsNonneg color amount p v = elim (Bool-cases (can_pay color amount p)) [
  | inl h ↦
      let (c, e, fits, q) = spend_paid color amount p h in
      rw q (
        set_field-IsNonneg c (field c p -ℤ amount) p
          (omega (int_laws, geb_ℤ→le (field c p) amount fits)) v)
  | inr h ↦ rw (spend_refused color amount p h) v
]

-- The mana in the payment.
abbrev pub paid_total : ManaPayment → ℤ
paid_total m = m.white +ℤ m.blue +ℤ m.black +ℤ m.red +ℤ m.green +ℤ m.colorless

abbrev pub paid : ManaColor → ManaPayment → ℤ
paid ManaColor.white m = m.white
paid ManaColor.blue m = m.blue
paid ManaColor.black m = m.black
paid ManaColor.red m = m.red
paid ManaColor.green m = m.green
paid ManaColor.colorless m = m.colorless

exceeds-false :
    (m : ManaPayment) (p : ManaPool) → exceeds m p ≡ false → (c : ManaColor) → paid c m ≤ℤ field c p
exceeds-false m p h c = ground arith

false-exceeds :
    (m : ManaPayment) (p : ManaPool)
    → ((c : ManaColor) → paid c m ≤ℤ field c p)
    → exceeds m p ≡ false
false-exceeds m p h = ground (
  arith,
  h ManaColor.white,
  h ManaColor.blue,
  h ManaColor.black,
  h ManaColor.red,
  h ManaColor.green,
  h ManaColor.colorless,
)

abbrev less : ManaPayment → ManaPool → ManaPool
less m p = record {
  white = p.white -ℤ m.white;
  blue = p.blue -ℤ m.blue;
  black = p.black -ℤ m.black;
  red = p.red -ℤ m.red;
  green = p.green -ℤ m.green;
  colorless = p.colorless -ℤ m.colorless;
}

field-less :
    (m : ManaPayment) (p : ManaPool) (c : ManaColor) → field c (less m p) ≡ field c p -ℤ paid c m
field-less m p ManaColor.white = refl
field-less m p _ = refl

total-less : (m : ManaPayment) (p : ManaPool) → total (less m p) +ℤ paid_total m ≡ total p
unfolding total
total-less m p = omega int_laws

after_payment :
    (m : ManaPayment) (p : ManaPool)
    → exceeds m p ≡ false
    → ((c : ManaColor) → field c (less m p) ≡ field c p -ℤ paid c m)
      × IsNonneg (less m p)
      × (total (less m p) +ℤ paid_total m ≡ total p)
after_payment m p h = (
  field-less m p,
  λ c. rw (field-less m p c) (omega (int_laws, exceeds-false m p h c)),
  total-less m p,
)

-- `pay_cost` succeeds exactly if no part of the payment is more than the pool holds of its color. It
-- then takes every part from its field, so that the total falls by the payment's total and no field
-- is below zero; a failed call leaves the pool as it was.
pub pay_cost_lem :
    (m : ManaPayment) (p : ManaPool)
    → (((pay_cost m p).1 ≡ true) ↔ ((c : ManaColor) → paid c m ≤ℤ field c p))
      × ((pay_cost m p).1 ≡ false → (pay_cost m p).0 ≡ p)
      × ((pay_cost m p).1 ≡ true
          → ((c : ManaColor) → field c (pay_cost m p).0 ≡ field c p -ℤ paid c m)
            × IsNonneg (pay_cost m p).0
            × (total (pay_cost m p).0 +ℤ paid_total m ≡ total p))
unfolding pay_cost
pay_cost_lem m p = elim (Bool-cases (exceeds m p)) [
  | inl more ↦
      rw (more, pay_cost)
        ((λ h. cc, λ h. absurd (cc (false-exceeds m p h))), λ _. refl, λ h. absurd (cc))
  | inr fits ↦
      rw (fits, pay_cost)
        ((λ _. exceeds-false m p fits, λ _. refl), λ h. absurd (cc), λ _. after_payment m p fits)
]
