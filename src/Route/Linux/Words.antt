-- ===== src/Route/Linux/Words.antt =====
-- Words: texts that the tokenizer leaves whole.

use tunator.Prelude.{ℕ, ◌≡◌, ◌≢◌, true, [], arith, All, All-imp}
use tunator.Text.{Text, codes, to_decimal}
use tunator.Text.Decimal.{IsDigit, to_decimal-IsDigit, to_decimal-ne-nil}
use tunator.Route.Library.{is_address_byte}
use tunator.Route.Linux.Render.{IsPlain, IsWord}

address_byte-IsPlain : (c : ℕ) → is_address_byte c ≡ true → IsPlain c
address_byte-IsPlain c h = ground arith

digit-IsPlain : (c : ℕ) → IsDigit c → IsPlain c
digit-IsPlain c h = ground arith

pub to_decimal-IsWord : (n : ℕ) → IsWord (to_decimal n)
to_decimal-IsWord n = record {
  plain = All-imp _ _ (to_decimal n) digit-IsPlain (to_decimal-IsDigit n);
  ne_nil = to_decimal-ne-nil n;
}

pub address-IsWord : (t : Text) → All (λ c. is_address_byte c ≡ true) t → t ≢ [] → IsWord t
address-IsWord t h ne = record { plain = All-imp _ _ t address_byte-IsPlain h; ne_nil = ne }

-- The words of the format.
pub default-IsWord : IsWord (codes "default")
default-IsWord = record { plain = ground arith; ne_nil = λ e. cc }

pub via-IsWord : IsWord (codes "via")
via-IsWord = record { plain = ground arith; ne_nil = λ e. cc }

pub dev-IsWord : IsWord (codes "dev")
dev-IsWord = record { plain = ground arith; ne_nil = λ e. cc }

pub proto-IsWord : IsWord (codes "proto")
proto-IsWord = record { plain = ground arith; ne_nil = λ e. cc }

pub scope-IsWord : IsWord (codes "scope")
scope-IsWord = record { plain = ground arith; ne_nil = λ e. cc }

pub src-IsWord : IsWord (codes "src")
src-IsWord = record { plain = ground arith; ne_nil = λ e. cc }

pub metric-IsWord : IsWord (codes "metric")
metric-IsWord = record { plain = ground arith; ne_nil = λ e. cc }
