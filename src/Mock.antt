-- ===== src/Mock.antt =====
-- CMock/__init__.py and CMock/helpers.py: mocks of C functions. `Hook` is the object that hooks a
-- function, `Fake` the fake system calls, `Counted` the counting of calls, `Loading` the search for the
-- shared object and for symbols.
pub mod Hook
pub mod Fake
pub mod Window
pub mod Counted
mod Syscalls
mod Loading
mod Examples
