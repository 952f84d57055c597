-- ===== src/Tests.antt =====
-- Concrete runs of the model: a demonstration of the services that the theorems take, a small
-- database, and the theorems applied at it.
mod Site
mod Tenants
mod Sockets
mod Demo
mod Policies
mod Holds
mod Bookings
mod Checkout
mod Devices
mod Routes
mod Requests
mod Payments
mod Own
