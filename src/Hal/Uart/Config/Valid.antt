-- ===== src/Hal/Uart/Config/Valid.antt =====
-- What the attributes that hal_uart.c sets mean.
use emberlite.Common.{
  ℕ, zero, suc, ◌+◌, ◌*◌, ◌≤◌, ◌≡◌, refl, ap, ap₂, ◌∙◌, arith, Bool, true, false, Option, none,
  some, List, [], ◌∷◌, ◌==◌, not,
}
use emberlite.Hal.Termios.{
  Termios, has_bit, ignbrk, brkint, parmrk, inlcr, igncr, inpck, istrip, icrnl, ixon, ixany, ixoff,
  opost, isig, icanon, echo, echonl, iexten, cstopb, cread, parenb, parodd, clocal, crtscts,
}
use emberlite.Hal.Uart.Config.{
  UartConfig, raw_mode, size_mask, data_bits_of, stop_bits_of, parity_of, flow_control_of, ◌>>=◌,
  attributes_for,
}

-- What hal_uart.h says of a configuration.
abbrev pub IsValid : UartConfig → Type 0
IsValid cfg =
    (5 ≤ cfg.data_bits)
    × (cfg.data_bits ≤ 8)
    × (1 ≤ cfg.stop_bits)
    × (cfg.stop_bits ≤ 2)
    × (cfg.parity ≤ 2)
    × (cfg.flow_control ≤ 2)

abbrev pub bit : Bool → ℕ
bit true = 1
bit false = 0

-- The attributes say what the configuration does.
pub record Describes (cfg : UartConfig) (t : Termios) : Type 0 where
  pub size : 5 + bit (t.cflag 4) + 2 * bit (t.cflag 5) ≡ cfg.data_bits
  pub stop : 1 + bit (t.cflag cstopb) ≡ cfg.stop_bits
  pub parity_on : t.cflag parenb ≡ not (cfg.parity == 0)
  pub odd : cfg.parity ≡ 1 → t.cflag parodd ≡ true
  pub even : cfg.parity ≡ 2 → t.cflag parodd ≡ false
  pub check : t.iflag inpck ≡ not (cfg.parity == 0)
  pub hardware : t.cflag crtscts ≡ (cfg.flow_control == 1)
  pub software :
      (t.iflag ixon ≡ (cfg.flow_control == 2)) × (t.iflag ixoff ≡ (cfg.flow_control == 2))
  pub raw_local :
      (t.lflag icanon ≡ false)
      × (t.lflag echo ≡ false)
      × (t.lflag echonl ≡ false)
      × (t.lflag isig ≡ false)
      × (t.lflag iexten ≡ false)
  pub raw_output : t.oflag opost ≡ false
  pub raw_input :
      (t.iflag ignbrk ≡ false)
      × (t.iflag brkint ≡ false)
      × (t.iflag parmrk ≡ false)
      × (t.iflag inlcr ≡ false)
      × (t.iflag igncr ≡ false)
      × (t.iflag icrnl ≡ false)
      × (t.iflag istrip ≡ false)
  pub receiver : (t.cflag cread ≡ true) × (t.cflag clocal ≡ true)
  pub wait : (t.vmin ≡ 1) × (t.vtime ≡ 0)

-- A step that sets bits of these masks only.
record Changes (mask imask : List ℕ) (t t' : Termios) : Type 0 where
  cflag : (k : ℕ) → has_bit mask k ≡ false → t'.cflag k ≡ t.cflag k
  iflag : (k : ℕ) → has_bit imask k ≡ false → t'.iflag k ≡ t.iflag k
  oflag : t'.oflag ≡ t.oflag
  lflag : t'.lflag ≡ t.lflag

data_bits_of-some :
    (n : ℕ) (t : Termios)
    → 5 ≤ n
    → n ≤ 8
    → (t' : Termios) × (data_bits_of n t ≡ some t')
      × (5 + bit (t'.cflag 4) + 2 * bit (t'.cflag 5) ≡ n)
      × Changes (4 ∷ 5 ∷ []) [] t t'
unfolding data_bits_of size_mask
data_bits_of-some zero t h l = absurd (omega arith)
data_bits_of-some (suc zero) t h l = absurd (omega arith)
data_bits_of-some (suc (suc zero)) t h l = absurd (omega arith)
data_bits_of-some (suc (suc (suc zero))) t h l = absurd (omega arith)
data_bits_of-some (suc (suc (suc (suc zero)))) t h l = absurd (omega arith)
data_bits_of-some (suc (suc (suc (suc (suc zero))))) t h l = (
  _,
  refl,
  refl,
  record { cflag = λ k q. ground arith; iflag = λ k q. refl; oflag = refl; lflag = refl },
)
data_bits_of-some (suc (suc (suc (suc (suc (suc zero)))))) t h l = (
  _,
  refl,
  refl,
  record { cflag = λ k q. ground arith; iflag = λ k q. refl; oflag = refl; lflag = refl },
)
data_bits_of-some (suc (suc (suc (suc (suc (suc (suc zero))))))) t h l = (
  _,
  refl,
  refl,
  record { cflag = λ k q. ground arith; iflag = λ k q. refl; oflag = refl; lflag = refl },
)
data_bits_of-some (suc (suc (suc (suc (suc (suc (suc (suc zero)))))))) t h l = (
  _,
  refl,
  refl,
  record { cflag = λ k q. ground arith; iflag = λ k q. refl; oflag = refl; lflag = refl },
)
data_bits_of-some (suc (suc (suc (suc (suc (suc (suc (suc (suc n))))))))) t h l =
    absurd (omega arith)

stop_bits_of-some :
    (n : ℕ) (t : Termios)
    → 1 ≤ n
    → n ≤ 2
    → (t' : Termios) × (stop_bits_of n t ≡ some t')
      × (1 + bit (t'.cflag cstopb) ≡ n)
      × Changes (cstopb ∷ []) [] t t'
unfolding stop_bits_of
stop_bits_of-some zero t h l = absurd (omega arith)
stop_bits_of-some (suc zero) t h l = (
  _,
  refl,
  refl,
  record { cflag = λ k q. ground arith; iflag = λ k q. refl; oflag = refl; lflag = refl },
)
stop_bits_of-some (suc (suc zero)) t h l = (
  _,
  refl,
  refl,
  record { cflag = λ k q. ground arith; iflag = λ k q. refl; oflag = refl; lflag = refl },
)
stop_bits_of-some (suc (suc (suc n))) t h l = absurd (omega arith)

parity_of-some :
    (n : ℕ) (t : Termios)
    → n ≤ 2
    → (t' : Termios) × (parity_of n t ≡ some t')
      × ((t'.cflag parenb ≡ not (n == 0))
          × (n ≡ 1 → t'.cflag parodd ≡ true)
          × (n ≡ 2 → t'.cflag parodd ≡ false)
          × (t'.iflag inpck ≡ not (n == 0))
          × (t.iflag istrip ≡ false → t'.iflag istrip ≡ false))
      × Changes (parenb ∷ parodd ∷ []) (inpck ∷ istrip ∷ []) t t'
unfolding parity_of
parity_of-some zero t l = (
  _,
  refl,
  (refl, (λ q. absurd (omega (arith, q))), (λ q. absurd (omega (arith, q))), refl, λ q. refl),
  record { cflag = λ k q. ground arith; iflag = λ k q. ground arith; oflag = refl; lflag = refl },
)
parity_of-some (suc zero) t l = (
  _,
  refl,
  (refl, (λ q. refl), (λ q. absurd (omega (arith, q))), refl, λ q. q),
  record { cflag = λ k q. ground arith; iflag = λ k q. ground arith; oflag = refl; lflag = refl },
)
parity_of-some (suc (suc zero)) t l = (
  _,
  refl,
  (refl, (λ q. absurd (omega (arith, q))), (λ q. refl), refl, λ q. q),
  record { cflag = λ k q. ground arith; iflag = λ k q. ground arith; oflag = refl; lflag = refl },
)
parity_of-some (suc (suc (suc n))) t l = absurd (omega arith)

flow_control_of-some :
    (n : ℕ) (t : Termios)
    → n ≤ 2
    → (t' : Termios) × (flow_control_of n t ≡ some t')
      × ((t'.cflag crtscts ≡ (n == 1)) × (t'.iflag ixon ≡ (n == 2)) × (t'.iflag ixoff ≡ (n == 2)))
      × Changes (crtscts ∷ []) (ixon ∷ ixoff ∷ ixany ∷ []) t t'
unfolding flow_control_of
flow_control_of-some zero t l = (
  _,
  refl,
  (refl, refl, refl),
  record { cflag = λ k q. ground arith; iflag = λ k q. ground arith; oflag = refl; lflag = refl },
)
flow_control_of-some (suc zero) t l = (
  _,
  refl,
  (refl, refl, refl),
  record { cflag = λ k q. ground arith; iflag = λ k q. ground arith; oflag = refl; lflag = refl },
)
flow_control_of-some (suc (suc zero)) t l = (
  _,
  refl,
  (refl, refl, refl),
  record { cflag = λ k q. ground arith; iflag = λ k q. ground arith; oflag = refl; lflag = refl },
)
flow_control_of-some (suc (suc (suc n))) t l = absurd (omega arith)

attributes_for-valid :
    (cfg : UartConfig) (t : Termios)
    → IsValid cfg
    → (t' : Termios) × (attributes_for cfg t ≡ some t') × Describes cfg t'
unfolding attributes_for raw_mode
attributes_for-valid cfg t (d, d', s, s', p, f) =
    let (t₁, e₁, size, c₁) = data_bits_of-some cfg.data_bits (raw_mode t) d d' in
    let (t₂, e₂, stop, c₂) = stop_bits_of-some cfg.stop_bits t₁ s s' in
    let (t₃, e₃, par, c₃) = parity_of-some cfg.parity t₂ p in
    let (t₄, e₄, flow, c₄) = flow_control_of-some cfg.flow_control t₃ f in
    let iflag₄ : (k : ℕ)
        → has_bit (inpck ∷ istrip ∷ []) k ≡ false
        → has_bit (ixon ∷ ixoff ∷ ixany ∷ []) k ≡ false
        → t₄.iflag k ≡ (raw_mode t).iflag k =
      λ k h₃ h₄. c₄.iflag k h₄ ∙ c₃.iflag k h₃ ∙ c₂.iflag k refl ∙ c₁.iflag k refl in
    let lflag₄ = c₄.lflag ∙ c₃.lflag ∙ c₂.lflag ∙ c₁.lflag in
    (
      record t₄ { vmin = 1; vtime = 0 },
      rw (e₁, e₂, e₃, e₄) refl,
      record {
        size =
            ap₂ (λ a b. 5 + bit a + 2 * bit b) {u = t₄.cflag 5} {v = t₁.cflag 5}
              (c₄.cflag 4 refl ∙ c₃.cflag 4 refl ∙ c₂.cflag 4 refl)
              (c₄.cflag 5 refl ∙ c₃.cflag 5 refl ∙ c₂.cflag 5 refl)
            ∙ size;
        stop = ap (λ a. 1 + bit a) (c₄.cflag cstopb refl ∙ c₃.cflag cstopb refl) ∙ stop;
        parity_on = c₄.cflag parenb refl ∙ par.0;
        odd = λ q. c₄.cflag parodd refl ∙ par.1 q;
        even = λ q. c₄.cflag parodd refl ∙ par.2 q;
        check = c₄.iflag inpck refl ∙ par.3;
        hardware = flow.0;
        software = (flow.1, flow.2);
        raw_local = (
          ap (λ w. w icanon) lflag₄,
          ap (λ w. w echo) lflag₄,
          ap (λ w. w echonl) lflag₄,
          ap (λ w. w isig) lflag₄,
          ap (λ w. w iexten) lflag₄,
        );
        raw_output = ap (λ w. w opost) (c₄.oflag ∙ c₃.oflag ∙ c₂.oflag ∙ c₁.oflag);
        raw_input = (
          iflag₄ ignbrk refl refl,
          iflag₄ brkint refl refl,
          iflag₄ parmrk refl refl,
          iflag₄ inlcr refl refl,
          iflag₄ igncr refl refl,
          iflag₄ icrnl refl refl,
          c₄.iflag istrip refl ∙ par.4 (c₂.iflag istrip refl ∙ c₁.iflag istrip refl),
        );
        receiver = (
          c₄.cflag cread refl ∙ c₃.cflag cread refl ∙ c₂.cflag cread refl ∙ c₁.cflag cread refl,
          c₄.cflag clocal refl ∙ c₃.cflag clocal refl ∙ c₂.cflag clocal refl ∙ c₁.cflag clocal refl,
        );
        wait = (refl, refl);
      },
    )

>>=-some :
    {A B : Type 0} (m : Option A) (f : A → Option B) (b : B)
    → (m >>= f) ≡ some b
    → (a : A) × (m ≡ some a) × (f a ≡ some b)
>>=-some none f b h = absurd (ground arith)
>>=-some (some a) f b h = (a, refl, h)

data_bits_of-range : (n : ℕ) (t t' : Termios) → data_bits_of n t ≡ some t' → (5 ≤ n) × (n ≤ 8)
unfolding data_bits_of size_mask
data_bits_of-range n t t' h = ground arith

stop_bits_of-range : (n : ℕ) (t t' : Termios) → stop_bits_of n t ≡ some t' → (1 ≤ n) × (n ≤ 2)
unfolding stop_bits_of
stop_bits_of-range n t t' h = ground arith

parity_of-range : (n : ℕ) (t t' : Termios) → parity_of n t ≡ some t' → n ≤ 2
unfolding parity_of
parity_of-range n t t' h = ground arith

flow_control_of-range : (n : ℕ) (t t' : Termios) → flow_control_of n t ≡ some t' → n ≤ 2
unfolding flow_control_of
flow_control_of-range n t t' h = ground arith

attributes_for-IsValid :
    (cfg : UartConfig) (t t' : Termios) → attributes_for cfg t ≡ some t' → IsValid cfg
unfolding attributes_for
attributes_for-IsValid cfg t t' h =
    let (t₁, e₁, h₁) = >>=-some (data_bits_of cfg.data_bits (raw_mode t)) _ t' h in
    let (t₂, e₂, h₂) = >>=-some (stop_bits_of cfg.stop_bits t₁) _ t' h₁ in
    let (t₃, e₃, h₃) = >>=-some (parity_of cfg.parity t₂) _ t' h₂ in
    let (t₄, e₄, h₄) = >>=-some (flow_control_of cfg.flow_control t₃) _ t' h₃ in
    let (d, d') = data_bits_of-range cfg.data_bits _ t₁ e₁ in
    let (s, s') = stop_bits_of-range cfg.stop_bits t₁ t₂ e₂ in
    (
      d,
      d',
      s,
      s',
      parity_of-range cfg.parity t₂ t₃ e₃,
      flow_control_of-range cfg.flow_control t₃ t₄ e₄,
    )

-- Whatever the attributes of the line were, a valid configuration gets attributes that say what it does,
-- in the raw mode of cfmakeraw, with the receiver on, and with reads that wait for one byte; a configuration that gets
-- attributes is valid.
pub attributes_for-Describes :
    (cfg : UartConfig) (t : Termios)
    → (IsValid cfg → (t' : Termios) × (attributes_for cfg t ≡ some t') × Describes cfg t')
      × ((t' : Termios) → attributes_for cfg t ≡ some t' → IsValid cfg)
attributes_for-Describes cfg t = (attributes_for-valid cfg t, attributes_for-IsValid cfg t)
