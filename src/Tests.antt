-- ===== src/Tests.antt =====
-- Concrete runs of the development: each child instantiates the parameters of one component.
mod Basics
mod Storage
mod At
mod Lorawan
mod Fuota
mod Settings
mod Api
mod Lora
mod Commands
