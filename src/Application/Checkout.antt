-- ===== src/Application/Checkout.antt =====
-- internal/application/checkout.go: `CheckoutService`, in the order of its steps.
pub mod Price
pub mod Saga
pub mod Entry
pub mod Repeat
